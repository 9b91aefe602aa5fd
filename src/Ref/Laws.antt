-- ===== src/Ref/Laws.antt =====
-- What `Redis.ref` reads after it wrote.
use redfx.Common.{String, ◌≡◌, refl, Bool, none, some}
use mathlib.Core.Path.{subst}
use redfx.Js.Text.{◌<>◌}
use redfx.Durations.{Durations}
use redfx.RedisError.{RedisError, command_error}
use redfx.Effect.{Exit, succeed, fail, die, Exit-cases, succeeded, failed, died}
use redfx.Redis.Service.{RedisService}
use redfx.Redis.ValueServer.{ValueServer}
use redfx.Ref.{Codec, RefOptions, WriteOptions, to_decode_error}
use redfx.Ref.Value.{get, set, update}

module _ {W A : Type 0} {durations : Durations} (r : RedisService W durations) (codec : Codec A)
    (options : RefOptions durations.DurationInput) (key : String) (server : ValueServer r)
    (lawful : (a : A) (s : String) → codec.encode a ≡ succeed s → codec.decode s ≡ succeed a) where
  open server use {stored, put, get_lem, set_lem, stored-put}

  -- If the write succeeded, the key holds the value.
  abbrev Holds : A → Exit RedisError (Unit {0}) × W → Type 0
  Holds a (succeed u, w) = get r codec options key w ≡ (succeed (some a), w)
  Holds a (fail e, w) = Unit {0}
  Holds a (die d, w) = Unit {0}

  set-Holds :
      (a : A) (opts : WriteOptions durations.DurationInput) (w : W)
      → Holds a (set r codec options key a opts w)
  unfolding set get to_decode_error
  set-Holds a opts w = elim (Exit-cases (codec.encode a)) [
    | succeeded s encodes ↦
        rw (encodes, set_lem, get_lem, stored-put key s w, lawful a s encodes) refl
    | failed e encodes ↦ rw encodes tt
    | died d encodes ↦ rw encodes tt
  ]

  -- A value that a ref has set is what it reads next, with any options of the write.
  pub set_is_read :
      (a : A) (opts : WriteOptions durations.DurationInput) (w w' : W)
      → set r codec options key a opts w ≡ (succeed tt, w')
      → get r codec options key w' ≡ (succeed (some a), w')
  set_is_read a opts w w' done = subst (Holds a) done (set-Holds a opts w)

  -- An update of a key without a value fails, and writes nothing; an update of a key whose value
  -- decodes sets the changed value, so that a ref reads it next.
  pub update_is_read :
      (f : A → A) (keep_ttl : Bool) (w : W)
      → (stored key w ≡ none
          → update r codec options key f keep_ttl w ≡ (
            fail (
                command_error
                  ("ref.update: key \"" <> key <> "\" does not exist")
                  (some "GET")
                  none),
            w,
          ))
        × ((s : String) (a : A) (w' : W)
            → stored key w ≡ some s
            → codec.decode s ≡ succeed a
            → update r codec options key f keep_ttl w ≡ (succeed tt, w')
            → get r codec options key w' ≡ (succeed (some (f a)), w'))
  unfolding update get to_decode_error
  update_is_read f keep_ttl w = (
    λ missing. rw (get_lem, missing) refl,
    λ s a w' there decodes done.
        set_is_read (f a) (record { ttl = none; keep_ttl = keep_ttl }) w w'
          (rw (get_lem, there, decodes) at done),
  )
