-- ===== src/Tests/EpochRuns.antt =====
-- An epoch of three records under a toy hash.
use omega_evidence.Base.{
  ℕ, true, Option, none, some, List, [], ◌∷◌, ◌++◌, ◌≡◌, refl, length, get_elem?, ◌≤◌, untrue,
}
use omega_evidence.Base.Text.{Text, codes, in_list, ◌===◌}
use omega_evidence.Json.Print.{text_lt}
use omega_evidence.Base.Int.{pos}
use omega_evidence.Base.Maybe.{is_some}
use omega_evidence.Value.{
  Value, Fields, name, null, int, float, str, list, dict, cons, nil, end, field,
}
use omega_evidence.Trail.Jcs.{Hasher, jcs, jcs_max_depth}
use omega_evidence.Trail.Depth.{height, jcs-height}
use omega_evidence.Trail.Epoch.{anchor_epoch, anchor_of, is_uuid4}
use omega_evidence.Trail.Anchored.{IsAnchored, anchor_epoch-IsAnchored}
use omega_evidence.Tests.TrailRuns.{toy_sha256}

abbrev toy : Hasher
toy = record { is_zero = λ t. t === codes "0.0"; double_of = λ z. none; sha256 = toy_sha256 }

-- The keys are sorted, and the text is not escaped beyond what JSON needs.
abbrev an_object : Value
an_object = dict (
    field (name (codes "b")) (list (cons (float (codes "1e-06")) (cons null nil)))
      (field (name (codes "a")) (str (codes "é\"")) end))

serialised :
    jcs toy true an_object
    ≡ some (codes "{\"a\":\"" ++ (195 ∷ 169 ∷ codes "\\\"\",\"b\":[0.000001,null]}"))
unfolding jcs in_list ◌===◌ text_lt
serialised = refl

jcs-height_example : height an_object ≤ jcs_max_depth
jcs-height_example = jcs-height toy true an_object _ serialised

abbrev a_record : ℕ → Fields
a_record n =
    field (name (codes "n")) (int (pos n))
      (field (name (codes "batch")) (str (codes "an older one")) end)

abbrev records : List Fields
records = a_record 1 ∷ a_record 2 ∷ a_record 3 ∷ []

abbrev epoch : Text
epoch = codes "0b5a3a2e-9c1d-4f6e-8a7b-0123456789ab"

abbrev returned : Option (List Fields × Fields) → List Fields × Fields
returned none = ([], end)
returned (some pair) = pair

some-returned :
    (o : Option (List Fields × Fields))
    → is_some o ≡ true
    → o ≡ some ((returned o).0, (returned o).1)
some-returned none h = untrue h
some-returned (some pair) h = refl

is_anchored : is_some (anchor_epoch toy records epoch [] none) ≡ true
unfolding anchor_epoch ◌===◌
is_anchored = refl

anchor_epoch-IsAnchored_example :
    let out = returned (anchor_epoch toy records epoch [] none) in
    (eid : Text) × (root : List ℕ) × (stamped : Fields) × (is_uuid4 eid ≡ true)
    × (out.1 ≡ anchor_of eid root (length records) stamped)
    × ((i : ℕ) (r : Fields)
        → get_elem? records i ≡ some r
        → (o : Fields) × (get_elem? out.0 i ≡ some o)
          × IsAnchored toy eid root (length records) i r o)
anchor_epoch-IsAnchored_example =
    anchor_epoch-IsAnchored toy records epoch [] none
      (returned (anchor_epoch toy records epoch [] none)).0
      (returned (anchor_epoch toy records epoch [] none)).1
      (some-returned (anchor_epoch toy records epoch [] none) is_anchored)
