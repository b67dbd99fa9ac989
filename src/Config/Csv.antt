-- ===== src/Config/Csv.antt =====
-- What parseCSV gives back.
use ginblade.Prelude.{
  ◌≡◌, refl, String, false, List, [], ◌∷◌, All, Bool-cases, inl, inr, is_empty, trim_space,
  split_on, join, Lacks,
}
use ginblade.Prelude.Text.Trim.{trim_space_idem, trim_space-Lacks}
use ginblade.Prelude.Text.Split.{split_on-Lacks, split_on-join}
use ginblade.Config.{clean_fields, parse_csv}

-- An entry of a parsed list: trimmed, not empty, and without a comma.
abbrev pub IsField : String → Type 0
IsField s = (trim_space s ≡ s) × (is_empty s ≡ false) × Lacks b',' s

clean_fields-IsField : (ps : List String) → All (Lacks b',') ps → All IsField (clean_fields ps)
unfolding clean_fields
clean_fields-IsField [] h = tt
clean_fields-IsField (p ∷ ps) (h, hs) =
    let rest = clean_fields-IsField ps hs in
    elim (Bool-cases (is_empty (trim_space p))) [
      | inl blank ↦ rw blank rest
      | inr given ↦ rw given ((trim_space_idem p, given, trim_space-Lacks b',' p h), rest)
    ]

clean_fields_of_IsField : (ps : List String) → All IsField ps → clean_fields ps ≡ ps
unfolding clean_fields
clean_fields_of_IsField [] h = refl
clean_fields_of_IsField (p ∷ ps) ((t, e, l), h) = rw (t, e, clean_fields_of_IsField ps h)

All-Lacks : (ps : List String) → All IsField ps → All (Lacks b',') ps
All-Lacks [] h = tt
All-Lacks (p ∷ ps) ((t, e, l), h) = (l, All-Lacks ps h)

parse_csv-join : (ps : List String) → All IsField ps → parse_csv (join "," ps) ≡ ps
unfolding parse_csv
parse_csv-join [] h = unfold clean_fields join split_on trim_space in refl
parse_csv-join (p ∷ ps) h =
    rw (split_on-join "," p ps (All-Lacks (p ∷ ps) h)) (clean_fields_of_IsField (p ∷ ps) h)

-- Whatever the variable holds, every entry of the parsed list is trimmed, not empty, and free of
-- commas; and a list of such entries, joined by commas, is parsed back to itself.
pub parse_csv_lem :
    (value : String) (ps : List String)
    → All IsField (parse_csv value) × (All IsField ps → parse_csv (join "," ps) ≡ ps)
unfolding parse_csv
parse_csv_lem value ps = (clean_fields-IsField _ (split_on-Lacks b',' value), parse_csv-join ps)
