-- ===== src/Policy/Scanner/Redact.antt =====
-- The result of a scan: the redacted text is the text with each finding replaced in place.
use mathlib.Core.List.{Memᴰ, append_assoc}
use rillan.Base.{
  ℕ, zero, suc, ◌-◌, ◌≤◌, ◌<◌, ◌≡◌, ◌↔◌, refl, sym, ap, ◌∙◌, true, false, any, List, [], ◌∷◌, ◌++◌,
  map, take, drop, All, length, is_empty, arith, Str, Bool-cases, inl, inr, negsuc,
  take-append-drop,
}
use rillan.Base.Member.{mem_of_any, any_of_mem}
use rillan.Base.Sort.{sort_func}
use rillan.Policy.Types.{FindingAction, Finding}
use rillan.Policy.Scanner.{
  Rule, RuleMatch, matches_from, compare_match, select_from, redact_all, selected_findings, scan,
  is_block,
}
use rillan.Policy.Scanner.Select.{
  IsWithin, AreMatchers, IsSpaced, IsCovered, selected_findings-IsSpaced, matches-IsCovered,
}

-- The text from `n` on with each finding replaced, from left to right.
pub assemble : ℕ → List Finding → Str → Str
assemble n [] text = drop n text
assemble n (f ∷ fs) text =
    take (f.start - n) (drop n text) ++ (f.replacement ++ assemble f.end fs text)

module _ {ℓ} {A : Type ℓ} where
  take-nil : (n : ℕ) → take {A = A} n [] ≡ []
  take-nil zero = refl
  take-nil (suc n) = refl

  take_append_left :
      (s e : ℕ) (xs ys : List A) → s ≤ e → e ≤ length xs → take s (take e xs ++ ys) ≡ take s xs
  take_append_left zero e xs ys p q = refl
  take_append_left (suc s) zero xs ys p q = absurd (omega arith)
  take_append_left (suc s) (suc e) [] ys p q = absurd (omega arith)
  take_append_left (suc s) (suc e) (x ∷ xs) ys p q =
      ap (◌∷◌ x) (take_append_left s e xs ys (omega arith) (omega arith))

  drop_append_left : (e : ℕ) (xs ys : List A) → e ≤ length xs → drop e (take e xs ++ ys) ≡ ys
  drop_append_left zero xs ys q = refl
  drop_append_left (suc e) [] ys q = absurd (omega arith)
  drop_append_left (suc e) (x ∷ xs) ys q = drop_append_left e xs ys (omega arith)

  take_split : (n s : ℕ) (xs : List A) → n ≤ s → take s xs ≡ take n xs ++ take (s - n) (drop n xs)
  take_split zero s xs p = ap (λ k. take k xs) (omega arith)
  take_split (suc n) zero xs p = absurd (omega arith)
  take_split (suc n) (suc s) [] p = sym (take-nil (suc s - suc n))
  take_split (suc n) (suc s) (x ∷ xs) p =
      ap (◌∷◌ x)
        (take_split n s xs (omega arith) ∙ ap (λ k. take n xs ++ take k (drop n xs)) (omega arith))

redact_all-assemble :
    (n : ℕ) (fs : List Finding) (text : Str)
    → n ≤ length text
    → IsSpaced n fs
    → All (IsWithin (length text)) fs
    → redact_all fs text ≡ take n text ++ assemble n fs text
unfolding redact_all assemble
redact_all-assemble n [] text h s w = sym (take-append-drop n text)
redact_all-assemble n (f ∷ fs) text h (p, q, s) ((q', r), w) =
    let rest = assemble f.end fs text in
    let ih = redact_all-assemble f.end fs text r s w in
    rw (ih, take_append_left f.start f.end text rest q r, drop_append_left f.end text rest r)
      (ap (λ t. t ++ (f.replacement ++ rest)) (take_split n f.start text p)
        ∙ append_assoc (take n text) (take (f.start - n) (drop n text)) (f.replacement ++ rest))

selected_nil :
    (rules : List Rule) (text : Str)
    → is_empty (matches_from 0 rules text) ≡ true
    → selected_findings rules text ≡ []
unfolding selected_findings
selected_nil rules text h = go (matches_from 0 rules text) h
  where
    go :
        (ms : List RuleMatch)
        → is_empty ms ≡ true
        → map (λ (m : RuleMatch). m.finding) (select_from (negsuc 0) (sort_func compare_match ms))
          ≡ []
    go [] h = refl
    go (m ∷ ms) h = cc

-- Whether or not there is a match, the result is that of the findings kept.
pub scan_lem :
    (rules : List Rule) (text : Str)
    → ((scan rules text).findings ≡ selected_findings rules text)
      × ((scan rules text).redacted_body ≡ redact_all (selected_findings rules text) text)
      × ((scan rules text).has_blocking_findings
          ≡ any (λ f. is_block f.action) (selected_findings rules text))
unfolding scan redact_all
scan_lem rules text = elim (Bool-cases (is_empty (matches_from 0 rules text))) [
  | inl e ↦ rw (e, selected_nil rules text e) (refl, refl, refl)
  | inr e ↦ rw e (refl, refl, refl)
]

-- With patterns whose matches lie within the text: the findings lie within it, do not overlap and
-- stand in its order; each match of each rule is a finding, or starts inside of one; and the
-- redacted body is the text with each finding replaced by its rule's replacement.
pub scan_sound :
    (rules : List Rule) (text : Str)
    → AreMatchers rules text
    → IsSpaced 0 (scan rules text).findings
      × All (IsWithin (length text)) (scan rules text).findings
      × All (IsCovered (scan rules text).findings) (matches_from 0 rules text)
      × ((scan rules text).redacted_body ≡ assemble 0 (scan rules text).findings text)
scan_sound rules text h =
    let (spaced, within) = selected_findings-IsSpaced rules text h in
    let (findings, redacted, _) = scan_lem rules text in
    rw (findings, redacted)
      (
        spaced,
        within,
        matches-IsCovered rules text,
        redact_all-assemble 0 (selected_findings rules text) text (omega arith) spaced within,
      )

-- A scan blocks exactly if it keeps a finding of a blocking rule.
pub scan-blocks_iff :
    (rules : List Rule) (text : Str)
    → ((scan rules text).has_blocking_findings ≡ true)
      ↔ ((f : Finding) × Memᴰ f (scan rules text).findings × (f.action ≡ FindingAction.block))
scan-blocks_iff rules text =
    let (findings, _, blocking) = scan_lem rules text in rw (findings, blocking) (to, from)
  where
    to :
        any (λ f. is_block f.action) (selected_findings rules text) ≡ true
        → (f : Finding) × Memᴰ f (selected_findings rules text) × (f.action ≡ FindingAction.block)
    to h =
        let (f, m, e) = mem_of_any (λ f. is_block f.action) (selected_findings rules text) h in
        (f, m, ground arith)

    from :
        (f : Finding) × Memᴰ f (selected_findings rules text) × (f.action ≡ FindingAction.block)
        → any (λ f. is_block f.action) (selected_findings rules text) ≡ true
    from (f, m, e) = any_of_mem (λ f. is_block f.action) (selected_findings rules text) m (rw e)

-- A private key that starts inside the match of a rule that only redacts does not block: of two
-- rules with one match each, the later of them blocking and starting inside the earlier's match,
-- the scan reports nothing that blocks.
pub scan-hides_block :
    (redacting blocking : Rule) (text : Str) (s e s' e' : ℕ)
    → redacting.action ≡ FindingAction.redact
    → blocking.action ≡ FindingAction.block
    → redacting.pattern text ≡ (s, e) ∷ []
    → blocking.pattern text ≡ (s', e') ∷ []
    → s < s'
    → s' < e
    → (scan (redacting ∷ blocking ∷ []) text).has_blocking_findings ≡ false
unfolding scan
scan-hides_block redacting blocking text s e s' e' a b p q lt lt' = rw (p, q) (ground arith)
