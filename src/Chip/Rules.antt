-- ===== src/Chip/Rules.antt =====
-- The rules of the registry of chips under updates and feeds.
use omega_evidence.Base.{
  true, false, not, ◌&&◌, ◌||◌, Option, none, some, List, [], ◌∷◌, ◌≡◌, refl, arith, inl, inr,
  Bool-cases,
}
use omega_evidence.Base.Text.{Text, codes, in_list, ◌===◌, ===→eq}
use omega_evidence.Base.Dict.{Dict, lookup, insert, erase, contains, lookup-insert, lookup-erase}
use omega_evidence.Value.{Value, Fields, name, non_string, end, field}
use omega_evidence.Ledger.Chain.{get, is_text}
use omega_evidence.Verifier.Forms.{Host}
use omega_evidence.Verifier.Checks.{File, or_empty}
use omega_evidence.Verifier.Verdict.{Request, verify_pack}
use omega_evidence.Chip.Classes.{
  ChipRegistry, Entry, baseline, untrusted_classes, new_registry, is_known, is_fixed, adopt,
  is_skipped, ingest_one, ingest_candidates, merge, merge_update, merge_classes, classes_of,
  signer_of, json_object, update_kind, is_trusted_signed, merge_pack, apply_signed_update,
}

-- The baseline stands, an untrusted class is not known, and a candidate is neither known nor
-- untrusted.
pub record IsRooted (r : ChipRegistry) : Type 0 where
  pub stands : (cls svc : Text) → lookup cls baseline ≡ some svc → lookup cls r.services ≡ some svc
  pub untrusted : (cls : Text) → in_list cls untrusted_classes ≡ true → lookup cls r.services ≡ none
  pub apart : (cls : Text) → contains cls r.candidates ≡ true → lookup cls r.services ≡ none
  pub not_untrusted :
      (cls : Text) → contains cls r.candidates ≡ true → in_list cls untrusted_classes ≡ false

module _ {V : Type 0} where
  contains-insert :
      (k c : Text) (v : V) (d : Dict V) → contains c (insert k v d) ≡ ((k === c) || contains c d)
  unfolding contains
  contains-insert k c v d = rw (contains, lookup-insert k c v d) (ground arith)

  contains-erase :
      (k c : Text) (d : Dict V) → contains c (erase k d) ≡ (not (k === c) && contains c d)
  unfolding contains
  contains-erase k c d = rw (contains, lookup-erase k c d) (ground arith)

  contains-lookup : (c : Text) (v : V) (d : Dict V) → lookup c d ≡ some v → contains c d ≡ true
  unfolding contains
  contains-lookup c v d e = rw (contains, e) refl

  absent : (c : Text) (d : Dict V) → contains c d ≡ false → lookup c d ≡ none
  unfolding contains
  absent c d e = ground arith

is_fixed-baseline : (cls svc : Text) → lookup cls baseline ≡ some svc → is_fixed cls ≡ true
unfolding is_fixed
is_fixed-baseline cls svc e = ground (arith, contains-lookup cls svc baseline e)

is_fixed-untrusted : (cls : Text) → in_list cls untrusted_classes ≡ true → is_fixed cls ≡ true
unfolding is_fixed
is_fixed-untrusted cls e = ground arith

-- A class that is adopted differs from one that is fixed.
other_class : (cls c : Text) → is_fixed cls ≡ false → is_fixed c ≡ true → (cls === c) ≡ false
other_class cls c free fixed = elim (Bool-cases (cls === c)) [
  | inl same ↦ cc (===→eq cls c same, free, fixed)
  | inr apart ↦ apart
]

adopt-IsRooted :
    (cls svc : Text) (r : ChipRegistry)
    → is_fixed cls ≡ false
    → IsRooted r
    → IsRooted (adopt cls svc r)
unfolding adopt
adopt-IsRooted cls svc r free i = record {
  stands = λ c s e.
      rw (lookup-insert, other_class cls c free (is_fixed-baseline c s e)) (i.stands c s e);
  untrusted =
      λ c e. rw (lookup-insert, other_class cls c free (is_fixed-untrusted c e)) (i.untrusted c e);
  apart = λ c e.
      let e' = rw contains-erase at e in
      let differs : (cls === c) ≡ false = ground arith in
      rw (lookup-insert, differs) (i.apart c (ground arith));
  not_untrusted = λ c e. let e' = rw contains-erase at e in i.not_untrusted c (ground arith);
}

skips_known :
    (cls : Text) (r : ChipRegistry) → is_skipped cls r ≡ false → contains cls r.services ≡ false
unfolding is_skipped is_known
skips_known cls r h = ground arith

skips_untrusted :
    (cls : Text) (r : ChipRegistry)
    → is_skipped cls r ≡ false
    → in_list cls untrusted_classes ≡ false
unfolding is_skipped
skips_untrusted cls r h = ground arith

ingest_one-IsRooted :
    (e : Entry) (source seen : Text) (r : ChipRegistry)
    → IsRooted r
    → IsRooted (ingest_one e source seen r)
unfolding ingest_one
ingest_one-IsRooted e source seen r i = elim (Bool-cases (is_skipped e.attestation_class r)) [
  | inl skipped ↦ rw (skipped, ingest_one) i
  | inr new ↦
      rw (new, ingest_one)
        (record {
          stands = i.stands;
          untrusted = i.untrusted;
          apart = λ c h. elim (Bool-cases (e.attestation_class === c)) [
            | inl same ↦
                rw (← ===→eq e.attestation_class c same) (absent _ r.services (skips_known _ r new))
            | inr other ↦ i.apart c (rw (contains-insert, other) at h)
          ];
          not_untrusted = λ c h. elim (Bool-cases (e.attestation_class === c)) [
            | inl same ↦ rw (← ===→eq e.attestation_class c same) (skips_untrusted _ r new)
            | inr other ↦ i.not_untrusted c (rw (contains-insert, other) at h)
          ];
        })
]

ingest_candidates-IsRooted :
    (es : List Entry) (source seen : Text) (r : ChipRegistry)
    → IsRooted r
    → IsRooted (ingest_candidates es source seen r).0
unfolding ingest_candidates
ingest_candidates-IsRooted [] source seen r i = i
ingest_candidates-IsRooted (e ∷ es) source seen r i =
    ingest_candidates-IsRooted es source seen (ingest_one e source seen r)
      (ingest_one-IsRooted e source seen r i)

-- The two untrusted classes, one by one.
untrusted_cases :
    (P : Text → Type 0)
    → P (codes "self-asserted")
    → P (codes "none")
    → (cls : Text) → in_list cls untrusted_classes ≡ true
    → P cls
unfolding in_list
untrusted_cases P a b cls e = elim (Bool-cases (cls === codes "self-asserted")) [
  | inl one ↦ rw (===→eq cls (codes "self-asserted") one) a
  | inr not_one ↦ elim (Bool-cases (cls === codes "none")) [
    | inl two ↦ rw (===→eq cls (codes "none") two) b
    | inr not_two ↦ cc (rw (not_one, not_two) at e)
  ]
]

pub new_registry-IsRooted : IsRooted new_registry
unfolding lookup ◌===◌ contains
new_registry-IsRooted = record {
  stands = λ cls svc e. e;
  untrusted = untrusted_cases (λ cls. lookup cls baseline ≡ none) refl refl;
  apart = λ cls e. cc;
  not_untrusted = λ cls e. cc;
}

-- One call on the registry: an update or a feed of candidates.
pub data Call : Type 0 where
  update : Request → Text → Call
  feed : List Entry → Text → Text → Call

abbrev pub calls : Host → (Value → Text) → List Call → ChipRegistry → ChipRegistry
calls h str_of [] r = r
calls h str_of (update q now ∷ cs) r = calls h str_of cs (apply_signed_update h str_of q now r).0
calls h str_of (feed es source seen ∷ cs) r =
    calls h str_of cs (ingest_candidates es source seen r).0

module _ (h : Host) (str_of : Value → Text) where
  merge-IsRooted : (fs : Fields) (r : ChipRegistry) → IsRooted r → IsRooted (merge h str_of fs r).0
  unfolding merge
  merge-IsRooted end r i = i
  merge-IsRooted (field (non_string k) v fs) r i = merge-IsRooted fs r i
  merge-IsRooted (field (name cls) svc fs) r i = elim (Bool-cases (is_fixed cls)) [
    | inl fixed ↦ rw (fixed, merge) (merge-IsRooted fs r i)
    | inr free ↦
        rw (free, merge)
          (merge-IsRooted fs (adopt cls (str_of svc) r) (adopt-IsRooted cls (str_of svc) r free i))
  ]

  merge_classes-IsRooted :
      (o : Option Fields) (signer digest : Value) (now : Text) (r : ChipRegistry)
      → IsRooted r
      → IsRooted (merge_classes h str_of o signer digest now r).0
  merge_classes-IsRooted none signer digest now r i = i
  merge_classes-IsRooted (some classes) signer digest now r i =
      let m = merge-IsRooted classes r i in
      record {
        stands = m.stands;
        untrusted = m.untrusted;
        apart = m.apart;
        not_untrusted = m.not_untrusted;
      }

  merge_pack-IsRooted :
      (o : Option Fields) (sig : Option File) (now : Text) (r : ChipRegistry)
      → IsRooted r
      → IsRooted (merge_pack h str_of o sig now r).0
  unfolding merge_update
  merge_pack-IsRooted none sig now r i = i
  merge_pack-IsRooted (some pack) sig now r i =
      elim (Bool-cases (is_text (get (codes "kind") pack) update_kind)) [
        | inl right_kind ↦
            rw (right_kind, merge_update)
              (merge_classes-IsRooted (classes_of h str_of (get (codes "chip_classes") pack))
                (signer_of h str_of sig) (or_empty (get (codes "pack_sha3") pack)) now r i)
        | inr other ↦ rw other i
      ]

  apply-IsRooted :
      (q : Request) (now : Text) (r : ChipRegistry)
      → IsRooted r
      → IsRooted (apply_signed_update h str_of q now r).0
  unfolding apply_signed_update
  apply-IsRooted q now r i =
      elim (Bool-cases
        (not (verify_pack h q).valid || not (is_trusted_signed (verify_pack h q).layers))) [
          | inl refused ↦ rw (refused, apply_signed_update) i
          | inr good ↦
              rw (good, apply_signed_update)
                (merge_pack-IsRooted (json_object q.pack) q.signature now r i)
        ]

  -- After any updates and feeds, whatever they hold, each class of the baseline still has the
  -- service of the baseline, the untrusted classes are not known, and no candidate is known or
  -- untrusted, if that was so before them.
  pub calls-IsRooted :
      (cs : List Call) (r : ChipRegistry) → IsRooted r → IsRooted (calls h str_of cs r)
  calls-IsRooted [] r i = i
  calls-IsRooted (update q now ∷ cs) r i = calls-IsRooted cs _ (apply-IsRooted q now r i)
  calls-IsRooted (feed es source seen ∷ cs) r i =
      calls-IsRooted cs _ (ingest_candidates-IsRooted es source seen r i)
