-- ===== src/Producer/Judged.antt =====
-- A file that holds what `build_pack` of omega_evidence/pack.py returned, before the verifier.
use omega_evidence.Base.{
  ℕ, false, none, some, List, [], ◌∷◌, ◌++◌, drop, ◌≡◌, refl, ap, ◌∙◌, inl, inr, Bool-cases,
}
use omega_evidence.Base.Text.{Text, codes, is_empty}
use omega_evidence.Base.Result.{ok}
use omega_evidence.Value.{Value, Fields}
use omega_evidence.Ledger.Chain.{get}
use omega_evidence.Verifier.Report.{
  Layer, layer, passed, skipped, pack_json, honest_scope, pack_fields, pack_sha3, rollup,
  internal_error_receipt,
}
use omega_evidence.Verifier.Forms.{Host}
use omega_evidence.Verifier.Verdict.{
  Request, verify_pack, judge, judge_file, finish, layers_of, own_layers, pack_of,
}
use omega_evidence.Producer.Pack.{build_pack}
use omega_evidence.Producer.Built.{IsBuilt, build_pack-IsBuilt, digest-IsBuilt}

-- The layers of the pack alone, as they are where each of them passes.
abbrev pub own_passed : List Layer
own_passed =
    layer pack_json passed
    ∷ layer honest_scope passed
    ∷ layer pack_fields skipped
    ∷ layer pack_sha3 passed
    ∷ []

module _ (h : Host) where
  finish-layers :
      (q : Request) (raw : List ℕ) (pack : Fields)
      → (finish h q raw pack).layers ≡ own_layers h pack ++ drop 4 (finish h q raw pack).layers
  unfolding finish rollup layers_of
  finish-layers q raw pack = refl

  judge-layers :
      (q : Request) (raw : List ℕ) (pack : Fields)
      → (judge h q raw (some pack)).layers
        ≡ own_layers h pack ++ drop 4 (judge h q raw (some pack)).layers
  unfolding judge internal_error_receipt rollup
  judge-layers q raw pack = elim (Bool-cases q.inject) [
    | inl broken ↦ rw (broken, judge) refl
    | inr runs ↦ rw (runs, judge) (finish-layers q raw pack)
  ]

  own_layers-IsBuilt :
      (body : Fields) (scope : Value) (pack : Fields)
      → ((t : Text) → is_empty (h.sha3_256 t) ≡ false)
      → get (codes "honest_scope") body ≡ none
      → IsBuilt h body scope pack
      → own_layers h pack ≡ own_passed
  own_layers-IsBuilt body scope pack full absent b =
      rw (digest-IsBuilt h body scope pack full b, b.holds_scope absent, b.declares) refl

  pub verify_pack-judge :
      (q : Request) (raw : List ℕ) (pack : Fields)
      → q.pack ≡ some raw
      → pack_of raw ≡ some pack
      → verify_pack h q ≡ judge h q raw (some pack)
  unfolding verify_pack
  verify_pack-judge q raw pack is_file reads =
      ap (judge_file h q) is_file ∙ ap (judge h q raw) reads

  -- Where a file holds bytes that the strict reader reads as what `build_pack` returned, of a body
  -- that does not name "honest_scope", and no SHA3-256 is the empty text: the receipt of
  -- `verify_pack` for that file, whatever else it is asked to look at, begins with the layers of
  -- the pack itself, and of those pack-json, honest-scope and pack_sha3 are PASS.
  pub build_pack-verify_pack :
      (kind : Text) (body : Fields) (scope : Value) (now : Text) (pack : Fields) (q : Request)
      (raw : List ℕ)
      → ((t : Text) → is_empty (h.sha3_256 t) ≡ false)
      → get (codes "honest_scope") body ≡ none
      → build_pack h kind body scope now ≡ ok pack
      → q.pack ≡ some raw
      → pack_of raw ≡ some pack
      → (rest : List Layer) × ((verify_pack h q).layers ≡ own_passed ++ rest)
  build_pack-verify_pack kind body scope now pack q raw full absent built is_file reads =
      let b : IsBuilt h body scope pack = build_pack-IsBuilt h kind body scope now pack built in
      let rest : List Layer = drop 4 (judge h q raw (some pack)).layers in
      (
        rest,
        ap (λ r. r.layers) (verify_pack-judge q raw pack is_file reads)
            ∙ judge-layers q raw pack
            ∙ ap (λ ls. ls ++ rest) (own_layers-IsBuilt body scope pack full absent b),
      )
