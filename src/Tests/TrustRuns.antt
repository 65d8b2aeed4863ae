-- ===== src/Tests/TrustRuns.antt =====
-- A registry that trusts, revokes and rotates one signer.
use omega_evidence.Base.{true, false, none, some, List, [], ◌∷◌, ◌≡◌, ◌≢◌, refl}
use omega_evidence.Base.Text.{Text, codes, ◌===◌}
use omega_evidence.Base.Dict.{lookup, insert}
use omega_evidence.Base.Result.{Result, ok}
use omega_evidence.Value.{Value, str}
use omega_evidence.Trust.Store.{
  Event, Broken, ignored, trusts, rotates as rotation, revokes, read_event, State, pin, replay,
  is_revoked,
}
use omega_evidence.Trust.Registry.{
  Registry, trust, rotate, revoke, idempotent, rotated, key_record, is_trusted, pinned_pq, is_key,
}
use omega_evidence.Trust.Events.{Rotates, revoked_stays, NoRotation}
use omega_evidence.Trust.Methods.{Agrees}
use omega_evidence.Trust.Refines.{Call, trust_call, rotate_call, revoke_call, calls, calls-Agrees}
use omega_evidence.Trust.Tofu.{trust_keeps_key, rotate_pins, PinAfter}

abbrev alice : Text
alice = codes "alice"

abbrev key : Text
key = codes "k1"

abbrev empty : Registry
empty = record { state = []; log = [] }

abbrev one_pin : Registry
one_pin = record { state = (alice, pin key none (some (str (codes "t")))) ∷ []; log = [] }

empty-Agrees : Agrees empty
unfolding replay lookup
empty-Agrees = record {
  replayed = [];
  runs = refl;
  same = λ k. refl;
  named = refl;
  pq_named = λ k. tt;
}

abbrev some_calls : List Call
some_calls =
    trust_call alice key none (codes "t") (codes "t")
    ∷ revoke_call alice (codes "lost") (codes "u")
    ∷ rotate_call alice (codes "k2") none true (codes "v") (codes "v")
    ∷ []

calls-Agrees_example : Agrees (calls some_calls empty)
calls-Agrees_example = calls-Agrees some_calls empty empty-Agrees

-- The last call is the one that counts.
rotated_away : is_trusted alice (codes "k2") (calls some_calls empty).state ≡ true
unfolding trust rotate revoke is_trusted lookup is_key insert ◌===◌
rotated_away = refl

trusts_again : trust alice key none (codes "t") (codes "t") one_pin ≡ ok (idempotent, one_pin)
unfolding trust is_key lookup ◌===◌
trusts_again = refl

found : lookup alice one_pin.state ≡ some (pin key none (some (str (codes "t"))))
unfolding lookup ◌===◌
found = refl

trust_keeps_key_example :
    (false ≡ false)
    × (key ≡ key)
    × (is_trusted alice key one_pin.state ≡ true)
    × ((j : Text) → alice ≢ j → lookup j one_pin.state ≡ lookup j one_pin.state)
trust_keeps_key_example =
    trust_keeps_key alice key (codes "t") (codes "t") none one_pin one_pin idempotent
      (pin key none (some (str (codes "t")))) found trusts_again

-- The post-quantum key of a signer goes along with a rotation of the other.
abbrev hybrid_pin : Registry
hybrid_pin = record {
  state = (alice, pin key (some (codes "pq")) (some (str (codes "t")))) ∷ [];
  log = [];
}

abbrev after_rotation : Registry
after_rotation = record {
  state = (alice, pin (codes "k2") (some (codes "pq")) (some (str (codes "u")))) ∷ [];
  log = key_record (codes "rotate") alice (codes "k2") (some (codes "pq")) (codes "u") ∷ [];
}

rotates :
    rotate alice (codes "k2") none false (codes "u") (codes "u") hybrid_pin
    ≡ ok (rotated true, after_rotation)
unfolding rotate is_key lookup ◌===◌ insert
rotates = refl

rotate_pins_example :
    (is_trusted alice (codes "k2") after_rotation.state ≡ true)
    × PinAfter false none (lookup alice hybrid_pin.state) (pinned_pq alice after_rotation.state)
    × ((j : Text) → alice ≢ j → lookup j after_rotation.state ≡ lookup j hybrid_pin.state)
rotate_pins_example =
    rotate_pins alice (codes "k2") (codes "u") (codes "u") none hybrid_pin after_rotation
      (rotated true) false rotates

abbrev revoked_pin : State
revoked_pin = (alice, record (pin key none none) { revoked = true }) ∷ []

abbrev later : List Value
later = key_record (codes "trust") alice key none (codes "w") ∷ []

is_revoked_now : is_revoked (lookup alice revoked_pin) ≡ true
unfolding lookup ◌===◌
is_revoked_now = refl

is_NoRotation : NoRotation alice later
unfolding read_event key_record ◌===◌
is_NoRotation = (λ e h. other e h, tt)
  where
    other :
        (e : Event)
        → ◌≡◌ {A = Result Broken Event} (ok (trusts alice key none (some (str (codes "w"))))) (ok e)
        → ¬ Rotates alice e
    other ignored h r = r
    other (trusts a b c d) h r = r
    other (rotation a b c d) h r = cc
    other (revokes a b) h r = r

changes_nothing : replay revoked_pin later ≡ ok revoked_pin
unfolding replay key_record ◌===◌ lookup
changes_nothing = refl

revoked_stays_example :
    (is_revoked (lookup alice revoked_pin) ≡ true)
    × (is_trusted alice key revoked_pin ≡ false)
    × (pinned_pq alice revoked_pin ≡ none)
revoked_stays_example =
    revoked_stays alice key revoked_pin revoked_pin later is_revoked_now is_NoRotation
      changes_nothing
