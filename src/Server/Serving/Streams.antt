-- ===== src/Server/Serving/Streams.antt =====
-- When streams are handled, and when no more are.
use cftun.Common.{
  ◌≡◌, refl, ap, ◌∙◌, Bool, true, false, Option, none, some, List, [], ◌∷◌, ◌++◌, map, All,
}
use cftun.Server.Serving.{
  ConnectionDetails, Response, register_connection, is_managed, Accepted, stream, cancelled, failed,
  Serving, running, returned, hand, ServeError, accept_failed, accept_stream, register, serve,
}

-- A response that makes the loop go on: no struct, a tag other than 1, no details, or details of a
-- tunnel that is not remotely managed.
abbrev pub Repeats : Option Response → Type 0
Repeats r = is_managed (register_connection r) ≡ false

-- The edge's answer that ends the loop.
abbrev pub managed : ConnectionDetails → Option Response
managed d = some (record { tag = 1; readable = true; text = ""; details = some d })

-- How the accepting of streams ends.
abbrev pub ending : {S : Type 0} → Bool → Accepted S
ending true = cancelled
ending false = failed

abbrev pub result : Bool → Option ServeError
result true = none
result false = some accept_failed

module _ {S : Type 0} where
  accept_all :
      (ss : List S) (quiet : Bool) (rest : List (Accepted S))
      → accept_stream (map stream ss ++ ending quiet ∷ rest)
        ≡ record { handled = ss; closed = true; outcome = returned (result quiet) }
  unfolding accept_stream
  accept_all [] true rest = refl
  accept_all [] false rest = refl
  accept_all (s ∷ ss) quiet rest = ap (λ (v : Serving S). hand s v) (accept_all ss quiet rest)

  register_skips :
      (rs more : List (Option Response)) (streams : List (Accepted S))
      → All Repeats rs
      → register (rs ++ more) streams ≡ register more streams
  unfolding register
  register_skips [] more streams h = refl
  register_skips (r ∷ rs) more streams h = rw h.0 (register_skips rs more streams h.1)

  register-Repeats :
      (rs : List (Option Response)) (streams : List (Accepted S))
      → All Repeats rs
      → register rs streams ≡ record { handled = []; closed = false; outcome = running }
  unfolding register
  register-Repeats [] streams h = refl
  register-Repeats (r ∷ rs) streams h = rw h.0 (register-Repeats rs streams h.1)

  register_done :
      (d : ConnectionDetails) (more : List (Option Response)) (streams : List (Accepted S))
      → d.tunnel_is_remotely_managed ≡ true
      → register (managed d ∷ more) streams ≡ accept_stream streams
  unfolding register register_connection
  register_done d more streams h = rw h refl

  -- The connection is registered by the first response with a remotely managed tunnel, however many
  -- came before. Then every stream is handed to a handler, in order, until accepting one fails; the
  -- connection is then closed, and the result is an error unless the context was cancelled. Without
  -- such a response no stream is handled and nothing returns.
  pub serve-register :
      (rs more : List (Option Response)) (d : ConnectionDetails) (ss : List S) (quiet : Bool)
      (rest : List (Accepted S))
      → All Repeats rs
      → d.tunnel_is_remotely_managed ≡ true
      → let streams = map stream ss ++ ending quiet ∷ rest in
        (serve true (rs ++ managed d ∷ more) streams
          ≡ record { handled = ss; closed = true; outcome = returned (result quiet) })
        × (serve true rs streams ≡ record { handled = []; closed = false; outcome = running })
  unfolding serve
  serve-register rs more d ss quiet rest h remote =
      let streams = map stream ss ++ ending quiet ∷ rest in
      (
        register_skips rs (managed d ∷ more) streams h
            ∙ register_done d more streams remote
            ∙ accept_all ss quiet rest,
        register-Repeats rs streams h,
      )
