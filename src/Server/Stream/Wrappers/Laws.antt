-- ===== src/Server/Stream/Wrappers/Laws.antt =====
-- Reads after the end of the stream or after `Close`, and the errors of a stream that is closing.
use cftun.Common.{
  ℕ, zero, suc, ◌≡◌, refl, ◌∙◌, ◌++◌, Bool, true, false, not, ◌&&◌, ◌||◌, Option, none, some, List,
  [], ◌∷◌, arith, Bytes, if◌then◌else◌,
}
use cftun.Server.Stream.Wrappers.{
  IoError, eof, closed_by_handler, net_error, handle_write_error, set_deadline, SafeStreamCloser,
  write, close, failing, NopCloserReadWriter, nop_read, nop_close,
}

abbrev pub times_out : Option IoError → Bool
times_out (some (net_error timeout idle)) = timeout
times_out _ = false

-- The wrapper after some number of reads.
unfoldable pub reads : ℕ → NopCloserReadWriter → NopCloserReadWriter
reads zero np = np
reads (suc n) np = reads n (nop_read np).0

saw_eof-nop_read : (np : NopCloserReadWriter) → np.saw_eof ≡ true → (nop_read np).0 ≡ np
unfolding nop_read
saw_eof-nop_read np h = ground arith

saw_eof-answer : (np : NopCloserReadWriter) → np.saw_eof ≡ true → (nop_read np).1 ≡ failing eof
unfolding nop_read
saw_eof-answer np h = ground arith

saw_eof-nop_close : (np : NopCloserReadWriter) → np.saw_eof ≡ true → (nop_close np).saw_eof ≡ true
unfolding nop_close
saw_eof-nop_close np h = h

saw_eof-reads : (n : ℕ) (np : NopCloserReadWriter) → np.saw_eof ≡ true → reads n np ≡ np
unfolding reads
saw_eof-reads zero np h = refl
saw_eof-reads (suc n) np h = rw (saw_eof-nop_read np h) (saw_eof-reads n np h)

-- A read that returns `io.EOF` is remembered.
eof_is_seen :
    (np : NopCloserReadWriter) → (nop_read np).1.error ≡ some eof → (nop_read np).0.saw_eof ≡ true
unfolding nop_read
eof_is_seen np h = ground arith

-- Once a read has returned `io.EOF`, every later read returns it too, whether `Close` was called or
-- not, and the stream below is not read again.
pub reads-eof :
    (n : ℕ) (np : NopCloserReadWriter)
    → (nop_read np).1.error ≡ some eof
    → let np' = reads n (nop_read np).0 in
      (np'.below ≡ (nop_read np).0.below)
      × ((nop_read np').1 ≡ failing eof)
      × ((nop_read (nop_close np')).1 ≡ failing eof)
reads-eof n np h =
    let seen = eof_is_seen np h in
    rw (saw_eof-reads n (nop_read np).0 seen) (
      refl,
      saw_eof-answer (nop_read np).0 seen,
      saw_eof-answer (nop_close (nop_read np).0) (saw_eof-nop_close (nop_read np).0 seen),
    )

-- `Close` stops the reads of a stream that has not ended.
pub nop_read-nop_close :
    (np : NopCloserReadWriter)
    → nop_read (nop_close np)
      ≡ (nop_close np, failing (if np.saw_eof then eof else closed_by_handler))
unfolding nop_read nop_close
nop_read-nop_close np = ground arith

set_deadline_keeps :
    (now : ℕ) (settable : Bool) (s : SafeStreamCloser)
    → let s' = set_deadline now settable s in
      (s'.write_cancelled ≡ s.write_cancelled) × (s'.closing ≡ s.closing)
unfolding set_deadline
set_deadline_keeps now settable s = ground arith

cancelled_by :
    (e : IoError) (s : SafeStreamCloser)
    → (handle_write_error e s).write_cancelled
      ≡ (s.write_cancelled || (not s.closing && times_out (some e)))
unfolding handle_write_error
cancelled_by (net_error timeout idle) s = ground arith
cancelled_by _ s = ground arith

-- A failed write cancels the stream exactly when the stream is not closing and the failure is a
-- network timeout, idle or not; a write that succeeds cancels nothing.
pub write-cancels :
    (now : ℕ) (settable : Bool) (n : ℕ) (error : Option IoError) (p : Bytes) (s : SafeStreamCloser)
    → (write now settable n error p s).0.write_cancelled
      ≡ (s.write_cancelled || (not s.closing && times_out error))
unfolding write
write-cancels now settable n none p s = ground (arith, set_deadline_keeps now settable s)
write-cancels now settable n (some e) p s =
    cancelled_by e
      (record (set_deadline now settable s) { sent = (set_deadline now settable s).sent ++ p ∷ [] })
    ∙ ground (arith, set_deadline_keeps now settable s)

closing_stays :
    (now : ℕ) (settable : Bool) (n : ℕ) (error : Option IoError) (p : Bytes) (s : SafeStreamCloser)
    → (write now settable n error p s).0.closing ≡ s.closing
unfolding write set_deadline handle_write_error
closing_stays now settable n none p s = ground arith
closing_stays now settable n (some (net_error timeout idle)) p s = ground arith
closing_stays now settable n (some _) p s = ground arith

-- One call of `Write`, with what the stream below answers.
record Writing : Type 0 where
  now : ℕ
  settable : Bool
  n : ℕ
  error : Option IoError
  p : Bytes

writes : List Writing → SafeStreamCloser → SafeStreamCloser
writes [] s = s
writes (w ∷ ws) s = writes ws ((write w.now w.settable w.n w.error w.p s).0)

writes-cancel :
    (ws : List Writing) (s : SafeStreamCloser)
    → s.closing ≡ true
    → (writes ws s).write_cancelled ≡ s.write_cancelled
unfolding writes
writes-cancel [] s h = refl
writes-cancel (w ∷ ws) s h =
    let next = (write w.now w.settable w.n w.error w.p s).0 in
    writes-cancel ws next (closing_stays w.now w.settable w.n w.error w.p s ∙ h)
    ∙ ground (arith, write-cancels w.now w.settable w.n w.error w.p s)

-- Behind a Close, no write cancels the stream, however it fails.
close-writes :
    (at : ℕ) (ws : List Writing) (s : SafeStreamCloser)
    → (writes ws (close at s)).write_cancelled ≡ s.write_cancelled
unfolding close
close-writes at ws s = writes-cancel ws (close at s) refl
