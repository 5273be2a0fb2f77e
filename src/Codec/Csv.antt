-- ===== src/Codec/Csv.antt =====
-- `split_unique_csv` of src/codec.rs.
use mikura.Common.{
  ◌≡◌, subst, Bool, true, false, List, [], ◌∷◌, length, ◌==◌, if◌then◌else◌, Result, ok, err, ◌>>=◌,
  >>=-eq-ok, ok-eq, else-ok,
}
use mikura.Common.Text.{Str, contains_str}
use mikura.Common.Strings.{split_char, trim}
use mikura.Errors.{Error}

-- The parts behind those that are `seen`.
unfoldable pub unique_parts : Error → Error → List Str → List Str → Result Error (List Str)
unfolding trim
unique_parts empty duplicate seen [] = ok []
unique_parts empty duplicate seen (part ∷ parts) =
    if length (trim part) == 0
    then err empty
    else if contains_str (trim part) seen
    then err duplicate
    else (do rest ← unique_parts empty duplicate (trim part ∷ seen) parts; ok (trim part ∷ rest))

unfoldable pub split_unique_csv : Str → Error → Error → Result Error (List Str)
unfolding split_char unique_parts
split_unique_csv raw empty duplicate =
    if length raw == 0 then ok [] else unique_parts empty duplicate [] (split_char 44 raw)

-- Entries that are new to those seen, each once and none empty.
abbrev pub Distinct : List Str → List Str → Type 0
Distinct seen [] = Unit {0}
Distinct seen (part ∷ parts) =
    ((length part == 0) ≡ false) × (contains_str part seen ≡ false) × Distinct (part ∷ seen) parts

unique_parts-Distinct :
    (empty duplicate : Error) (seen parts out : List Str)
    → unique_parts empty duplicate seen parts ≡ ok out
    → Distinct seen out
unfolding unique_parts
unique_parts-Distinct empty duplicate seen [] out h = subst (Distinct seen) (ok-eq _ _ h) tt
unique_parts-Distinct empty duplicate seen (part ∷ parts) out h =
    let (full, rest) = else-ok (length (trim part) == 0) _ _ h in
    let (new, rest) = else-ok (contains_str (trim part) seen) _ _ rest in
    let (others, read, last) =
      >>=-eq-ok (unique_parts empty duplicate (trim part ∷ seen) parts) _ rest in
    subst (Distinct seen) (ok-eq _ _ last)
      (full, new, unique_parts-Distinct empty duplicate (trim part ∷ seen) parts others read)

-- Where a comma-separated list is read, no entry of it is empty and none stands twice.
pub split_unique_csv-Distinct :
    (raw : Str) (empty duplicate : Error) (out : List Str)
    → split_unique_csv raw empty duplicate ≡ ok out
    → Distinct [] out
unfolding split_unique_csv
split_unique_csv-Distinct raw empty duplicate out h = by_length (length raw == 0) h
  where
    by_length :
        (b : Bool)
        → (if b then ok [] else unique_parts empty duplicate [] (split_char 44 raw)) ≡ ok out
        → Distinct [] out
    by_length true p = subst (Distinct []) (ok-eq _ _ p) tt
    by_length false p = unique_parts-Distinct empty duplicate [] (split_char 44 raw) out p
