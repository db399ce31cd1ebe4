-- ===== src/Log/Levels.antt =====
-- The levels that have a name are read back, and no two of them have the same one.
use cftun.Common.{◌≡◌, ◌≤◌, refl, ◌⊎◌, inl, inr, true, Option, none, some, String, arith}
use cftun.Log.{
  LogLevel, debug, info, warning, error, silent, other, rank, level_string, log_level_mapping,
  printed, unmarshal_json, marshal_json, unmarshal_yaml, marshal_yaml,
}

-- The mapping has exactly the five levels of the constants.
pub log_level_mapping-level_string :
    (l : LogLevel) → (log_level_mapping (level_string l) ≡ some l) ⊎ (5 ≤ rank l)
unfolding log_level_mapping level_string rank
log_level_mapping-level_string debug = inl refl
log_level_mapping-level_string info = inl refl
log_level_mapping-level_string warning = inl refl
log_level_mapping-level_string error = inl refl
log_level_mapping-level_string silent = inl refl
log_level_mapping-level_string (other n) = inr (omega arith)

-- An event is printed only where its level is not below the package's.
pub printed-rank : (level l : LogLevel) → printed level l ≡ true → rank level ≤ rank l
unfolding printed
printed-rank level debug h = ground arith
printed-rank level info h = ground arith
printed-rank level warning h = ground arith
printed-rank level error h = ground arith
printed-rank level silent h = cc
printed-rank level (other n) h = cc

-- What was written for one of the five levels is read back to it, in either format, whatever the
-- level was before.
pub unmarshal-marshal :
    {J : Type 0} (encode : String → J) (decode : J → Option String)
    → ((t : String) → decode (encode t) ≡ some t)
    → (l l' : LogLevel)
    → (((unmarshal_json l' (decode (marshal_json encode l)) ≡ (l, none))
          × (unmarshal_yaml l' (some (marshal_yaml l)) ≡ (l, none)))
        ⊎ (5 ≤ rank l))
unfolding unmarshal_json unmarshal_yaml marshal_json marshal_yaml level_string log_level_mapping
    rank
unmarshal-marshal encode decode back debug l' = inl (rw (back "debug"), refl)
unmarshal-marshal encode decode back info l' = inl (rw (back "info"), refl)
unmarshal-marshal encode decode back warning l' = inl (rw (back "warning"), refl)
unmarshal-marshal encode decode back error l' = inl (rw (back "error"), refl)
unmarshal-marshal encode decode back silent l' = inl (rw (back "silent"), refl)
unmarshal-marshal encode decode back (other n) l' = inr (omega arith)
