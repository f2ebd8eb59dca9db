-- ===== src/Bulk/Scan.antt =====
-- Induction over the lines of a bulk result.
use xg_mangement.Base.{
  String, ◌≡◌, refl, some, List, [], ◌∷◌, ◌⊎◌, inl, inr, ⊎-cases, All, is_blank, Bool-cases, true,
  false, Option-cases, ◌=ₛ◌,
}
use xg_mangement.Errors.{GoError}
use xg_mangement.Bulk.{
  BulkResource, Parser, ScanEnd, finished, too_long, broken, scan_line, scan_bulk_lines,
}

module _ {S : Type 0} (p : Parser) (visit : String → BulkResource → S → GoError ⊎ S) where
  inr_injective : {x y : S} → ◌≡◌ {A = GoError ⊎ S} (inr x) (inr y) → x ≡ y
  inr_injective q = cc

  -- The first line of a scan that succeeds, and the rest of it.
  pub scan_bulk_lines-cons :
      (line : String) (lines : List String) (end : ScanEnd) (s s' : S)
      → scan_bulk_lines p visit (line ∷ lines) end s ≡ inr s'
      → (t : S) × (scan_line p visit line s ≡ inr t)
        × (scan_bulk_lines p visit lines end t ≡ inr s')
  unfolding scan_bulk_lines
  scan_bulk_lines-cons line lines end s s' h = elim (⊎-cases (scan_line p visit line s)) [
    | inl (e, n) ↦ let stuck = rw (n, scan_bulk_lines) at h in cc stuck
    | inr (t, n) ↦ (t, n, rw (n, scan_bulk_lines) at h)
  ]

  -- A line that is read is blank, or it parses, and then it has no id or is visited.
  pub scan_line-cases :
      (line : String) (s t : S)
      → scan_line p visit line s ≡ inr t
      → ((is_blank line ≡ true) × (s ≡ t))
        ⊎ ((r : BulkResource) × (p.parse_resource line ≡ some r)
            × (((r.id =ₛ "") ≡ true) × (s ≡ t) ⊎ ((r.id =ₛ "") ≡ false) × (visit line r s ≡ inr t)))
  scan_line-cases line s t h = elim (Bool-cases (is_blank line)) [
    | inl b ↦ inl (b, inr_injective (rw b at h))
    | inr b ↦ elim (Option-cases (p.parse_resource line)) [
      | inl n ↦ let stuck = rw (b, n) at h in cc stuck
      | inr (r, n) ↦ elim (Bool-cases (r.id =ₛ "")) [
        | inl e ↦ inr (r, n, inl (e, inr_injective (rw (b, n, e) at h)))
        | inr e ↦ inr (r, n, inr (e, rw (b, n, e) at h))
      ]
    ]
  ]

  module _ (P : S → Type 0)
      (keep : (line : String) (r : BulkResource) (s t : S)
        → visit line r s ≡ inr t
        → P s
        → P t) where
    pub scan_line-keeps : (line : String) (s t : S) → scan_line p visit line s ≡ inr t → P s → P t
    scan_line-keeps line s t h k = elim (scan_line-cases line s t h) [
      | inl (_, e) ↦ rw (← e) k
      | inr (r, _, inl (_, e)) ↦ rw (← e) k
      | inr (r, _, inr (_, e)) ↦ keep line r s t e k
    ]

    -- What every visit keeps holds at the end, and the scanner has come to the end of the body.
    pub scan_bulk_lines-keeps :
        (lines : List String) (end : ScanEnd) (s s' : S)
        → scan_bulk_lines p visit lines end s ≡ inr s'
        → P s
        → P s' × (end ≡ finished)
    unfolding scan_bulk_lines
    scan_bulk_lines-keeps [] finished s s' h k = (rw (← inr_injective h) k, refl)
    scan_bulk_lines-keeps [] too_long s s' h k = cc h
    scan_bulk_lines-keeps [] (broken text) s s' h k = cc h
    scan_bulk_lines-keeps (line ∷ lines) end s s' h k =
        let (t, first, rest) = scan_bulk_lines-cons line lines end s s' h in
        scan_bulk_lines-keeps lines end t s' rest (scan_line-keeps line s t first k)

  -- What the visit of a line brings about, and later visits keep, holds of every line at the end.
  pub scan_bulk_lines-all :
      (R : String → S → Type 0)
      → ((line : String) (s t : S) → scan_line p visit line s ≡ inr t → R line t)
      → ((line line' : String) (r : BulkResource) (s t : S)
          → visit line' r s ≡ inr t
          → R line s
          → R line t)
      → (lines : List String) (end : ScanEnd) (s s' : S)
      → scan_bulk_lines p visit lines end s ≡ inr s'
      → All (λ line. R line s') lines
  scan_bulk_lines-all R done keep [] end s s' h = tt
  scan_bulk_lines-all R done keep (line ∷ lines) end s s' h =
      let (t, first, rest) = scan_bulk_lines-cons line lines end s s' h in
      (
        (scan_bulk_lines-keeps (R line) (keep line) lines end t s' rest (done line s t first)).0,
        scan_bulk_lines-all R done keep lines end t s' rest,
      )
