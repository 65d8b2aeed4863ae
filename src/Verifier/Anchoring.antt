-- ===== src/Verifier/Anchoring.antt =====
-- What it means that the ledger anchors a pack: `_check_ledger` of omega_evidence/verifier.py.
use omega_evidence.Base.{
  ℕ, true, Option, none, some, List, [], ◌∷◌, ◌≡◌, ◌≢◌, refl, inl, inr, ◌⊎◌, Bool-cases, and-parts,
  untrue, ap, sym, ◌∙◌,
}
use omega_evidence.Base.Text.{Text, codes}
use omega_evidence.Base.Maybe.{nothing}
use omega_evidence.Base.Utf8.{decode}
use omega_evidence.Value.{Value, Fields, str, dict, end}
use omega_evidence.Ledger.Chain.{get, is_text, verify_text, entries_text, genesis}
use omega_evidence.Ledger.Spec.{IsChain}
use omega_evidence.Ledger.Decides.{verify_text_iff}
use omega_evidence.Verifier.Forms.{Host}
use omega_evidence.Verifier.Checks.{
  File, check_ledger, ledger_anchors, text_anchors, anchored_in, any_anchors, anchors_pack, dict_of,
  digest_text,
}
use omega_evidence.Verifier.Authentic.{is_text-eq}

-- The entry, or the object in it, names the digest.
abbrev pub Names : Text → Fields → Type 0
Names digest e =
    (get (codes "anchored_pack_sha3") e ≡ some (str digest))
    ⊎ ((fs : Fields) × (get (codes "data") e ≡ some (dict fs))
        × (get (codes "anchored_pack_sha3") fs ≡ some (str digest)))

-- One of the entries names the digest.
pub data OneNames (digest : Text) : List Fields → Type 0 where
  here : (e : Fields) (es : List Fields) → Names digest e → OneNames digest (e ∷ es)
  there : (e : Fields) (es : List Fields) → OneNames digest es → OneNames digest (e ∷ es)

-- The file is a ledger whose chain is good, and one of its entries names this digest.
pub record IsAnchored (h : Host) (ledger : Option File) (digest : Text) : Type 0 where
  pub raw : List ℕ
  pub text : Text
  pub entries : List Fields
  pub is_file : ledger ≡ some (some raw)
  pub reads : decode raw ≡ some text
  pub lists : entries_text text ≡ some entries
  pub chain : IsChain h.sha256 0 genesis entries
  pub named : OneNames digest entries

nothing_there : (digest : Text) → get (codes "anchored_pack_sha3") end ≢ some (str digest)
unfolding get
nothing_there digest = nothing (str digest)

in_data :
    (o : Option Value) (digest : Text)
    → get (codes "anchored_pack_sha3") (dict_of o) ≡ some (str digest)
    → (fs : Fields) × (o ≡ some (dict fs))
      × (get (codes "anchored_pack_sha3") fs ≡ some (str digest))
in_data (some (dict fs)) digest e = (fs, refl, e)
in_data none digest e = absurd (nothing_there digest e)
in_data (some _) digest e = absurd (nothing_there digest e)

anchors_pack-Names : (digest : Text) (e : Fields) → anchors_pack digest e ≡ true → Names digest e
unfolding anchors_pack
anchors_pack-Names digest e h =
    elim (Bool-cases (is_text (get (codes "anchored_pack_sha3") e) digest)) [
      | inl t ↦ inl (is_text-eq _ digest t)
      | inr f ↦ inr (in_data (get (codes "data") e) digest (is_text-eq _ digest (rw f at h)))
    ]

any_anchors-OneNames :
    (digest : Text) (es : List Fields) → any_anchors digest es ≡ true → OneNames digest es
unfolding any_anchors
any_anchors-OneNames digest [] h = untrue h
any_anchors-OneNames digest (e ∷ es) h = elim (Bool-cases (anchors_pack digest e)) [
  | inl t ↦ here e es (anchors_pack-Names digest e t)
  | inr f ↦ there e es (any_anchors-OneNames digest es (rw f at h))
]

anchored_in-OneNames :
    (es : List Fields) (digest : Text) → anchored_in es digest ≡ true → OneNames digest es
unfolding anchored_in
anchored_in-OneNames [] digest h = untrue h
anchored_in-OneNames (e ∷ es) digest h =
    any_anchors-OneNames digest (e ∷ es) (and-parts _ (any_anchors digest (e ∷ es)) h).1

module _ (h : Host) where
  listed-IsAnchored :
      (raw : List ℕ) (text digest : Text) (es : List Fields)
      → decode raw ≡ some text
      → ledger_anchors h text digest ≡ true
      → entries_text text ≡ some es
      → IsChain h.sha256 0 genesis es
      → IsAnchored h (some (some raw)) digest
  unfolding ledger_anchors
  listed-IsAnchored raw text digest es reads e lists chain = record {
    raw = raw;
    text = text;
    entries = es;
    is_file = refl;
    reads = reads;
    lists = lists;
    chain = chain;
    named =
        anchored_in-OneNames es digest
          (and-parts (verify_text h.sha256 text).0 (anchored_in es digest)
            (rw (lists, ledger_anchors) at e)).1;
  }

  good_chain :
      (text digest : Text)
      → ledger_anchors h text digest ≡ true
      → (verify_text h.sha256 text).0 ≡ true
  unfolding ledger_anchors
  good_chain text digest e = (and-parts (verify_text h.sha256 text).0 _ e).0

  ledger_anchors-IsAnchored :
      (raw : List ℕ) (text digest : Text)
      → decode raw ≡ some text
      → ledger_anchors h text digest ≡ true
      → IsAnchored h (some (some raw)) digest
  ledger_anchors-IsAnchored raw text digest reads e =
      let (es, lists, chain) = (verify_text_iff h.sha256 text).0 (good_chain text digest e) in
      listed-IsAnchored raw text digest es reads e lists chain

  text_anchors-IsAnchored :
      (raw : List ℕ) (o : Option Text) (digest : Text)
      → decode raw ≡ o
      → text_anchors h o digest ≡ true
      → IsAnchored h (some (some raw)) digest
  text_anchors-IsAnchored raw none digest reads e = untrue e
  text_anchors-IsAnchored raw (some text) digest reads e =
      ledger_anchors-IsAnchored raw text digest reads e

  pub check_ledger-IsAnchored :
      (ledger : Option File) (pack : Fields) (digest : Text)
      → get (codes "pack_sha3") pack ≡ some (str digest)
      → (check_ledger h ledger pack).1 ≡ true
      → IsAnchored h ledger digest
  unfolding check_ledger
  check_ledger-IsAnchored none pack digest declared e = untrue e
  check_ledger-IsAnchored (some none) pack digest declared e = untrue e
  check_ledger-IsAnchored (some (some raw)) pack digest declared e =
      text_anchors-IsAnchored raw (decode raw) digest refl
        (ap (λ o. text_anchors h (decode raw) (digest_text o)) (sym declared) ∙ e)
