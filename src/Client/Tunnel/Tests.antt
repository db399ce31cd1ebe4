-- ===== src/Client/Tunnel/Tests.antt =====
-- Runs of the pipe.
use cftun.Common.{◌≡◌, refl, true, false, [], ◌∷◌}
use cftun.Client.Tunnel.{
  Side, origin, remote, set_side, finished, reading, writing, copied, half_closed, Piping, pipe,
  Step, read, write, read_ends, close_src, close_dst, Reach, here, next,
}
use cftun.Client.Tunnel.Pipe.{finished-closed}

-- The origin sends a chunk and ends.
abbrev p1 : Piping
p1 = record {
  is_open = λ a. true;
  stage = set_side origin (writing (7 ∷ [])) (λ a. reading);
  sent = λ a. [];
}

abbrev p2 : Piping
p2 = record {
  is_open = λ a. true;
  stage = set_side origin reading p1.stage;
  sent = set_side origin ((7 ∷ []) ∷ []) p1.sent;
}

abbrev p3 : Piping
p3 = record p2 { stage = set_side origin copied p2.stage }

abbrev p4 : Piping
p4 = record p3 {
  is_open = set_side origin false p3.is_open;
  stage = set_side origin half_closed p3.stage;
}

abbrev p5 : Piping
p5 = record p4 {
  is_open = set_side remote false p4.is_open;
  stage = set_side origin finished p4.stage;
}

ended : Reach p5
unfolding pipe
ended =
    next
      (next
        (next (next (next here (read origin (7 ∷ []) refl refl)) (write origin (7 ∷ []) refl refl))
          (read_ends origin refl))
        (close_src origin refl))
      (close_dst origin refl)

finished-closed_example :
    ((b : Side) → p5.is_open b ≡ false) × ((q : Piping) → Step p5 q → q.sent ≡ p5.sent)
finished-closed_example = finished-closed p5 origin ended refl
