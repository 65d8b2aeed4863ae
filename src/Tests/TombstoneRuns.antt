-- ===== src/Tests/TombstoneRuns.antt =====
-- A record of a trail erased twice, with a toy hash.
use omega_evidence.Base.{true, false, Option, none, some, ◌≡◌, refl, replicate, untrue}
use omega_evidence.Base.Text.{Text, codes, ◌===◌, in_list}
use omega_evidence.Base.Maybe.{is_some}
use omega_evidence.Value.{Fields, str, field, name, end}
use omega_evidence.Json.Print.{text_lt}
use omega_evidence.Ledger.Chain.{get}
use omega_evidence.Verifier.Forms.{hex, is_lower_hex}
use omega_evidence.Trail.Jcs.{Hasher}
use omega_evidence.Trail.Tombstone.{tombstone, hash_kept, kept_keys}
use omega_evidence.Trail.Erased.{tombstone_again}

abbrev toy : Hasher
toy = record { is_zero = λ t. false; double_of = λ z. none; sha256 = λ bs. replicate 32 171 }

abbrev a_record : Fields
a_record = field (name (codes "record_id")) (str (codes "r1")) (
    field (name (codes "prev_hash")) (str (codes "ab")) (
      field (name (codes "action_type")) (str (codes "tool_call"))
        (field (name (codes "signature")) (str (codes "sig")) end)))

abbrev left_of : Option Fields → Fields
left_of none = end
left_of (some r) = r

is_left : (o : Option Fields) → is_some o ≡ true → o ≡ some (left_of o)
is_left none h = untrue h
is_left (some r) h = refl

abbrev once : Option Fields
once = tombstone toy a_record (codes "art. 17") (codes "2026-01-01T00:00:00Z")

abbrev twice : Option Fields
twice = tombstone toy (left_of once) (codes "again") (codes "2026-01-02T00:00:00Z")

once-is_some : is_some once ≡ true
unfolding tombstone ◌===◌ text_lt
once-is_some = refl

twice-is_some : is_some twice ≡ true
unfolding tombstone ◌===◌ text_lt in_list
twice-is_some = refl

tombstone_again_example :
    (get (codes "tombstone_hash") (left_of twice) ≡ hash_kept toy a_record)
    × ((k : Text) → in_list k kept_keys ≡ true → get k (left_of twice) ≡ get k a_record)
unfolding is_lower_hex hex
tombstone_again_example =
    tombstone_again toy (λ bytes. refl) a_record (left_of once) (left_of twice) (codes "art. 17")
      (codes "2026-01-01T00:00:00Z") (codes "again") (codes "2026-01-02T00:00:00Z")
      (is_left once once-is_some) (is_left twice twice-is_some)
