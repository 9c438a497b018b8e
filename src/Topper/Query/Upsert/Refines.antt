-- ===== src/Topper/Query/Upsert/Refines.antt =====
-- `BuildUpsert` against what it promises for the columns, the arguments and the text.
use money_insighter.Prelude.{
  sym, ◌∙◌, Bool, if◌then◌else◌, text_eq, ℕ, suc, ◌≡◌, refl, ap, subst, Bool, true, false, ◌&&◌,
  Option, none, some, List, [], ◌∷◌, arith, Text, text_eq, text_eq-eq, lookup, get_elem?, keep_if,
  All, if◌then◌else◌,
}
use money_insighter.Topper.Catalog.{Relation, Column, column}
use money_insighter.Topper.Catalog.Index.{IsIndexed, column_complete}
use money_insighter.Topper.Query.Types.{
  Msg, row_column, Result, ok, err, rewrap, Ensures, returned, failed, Ensures-bind, Ensures-ok,
  Ensures-if, Ensures-map,
}
use money_insighter.Topper.Query.Projection.{Projected, projection}
use money_insighter.Topper.Query.Select.{Arg, Statement}
use money_insighter.Topper.Query.Values.{normalize_arg}
use money_insighter.Topper.Query.Upsert.{
  Row, refused, check_keys, is_present, written_columns, value_of, to_arg, arguments, upsert_text,
  with_columns, build_upsert,
}

-- Every key of the row is a column that is not denied.
abbrev KeysAllowed : Relation → Row → Type 0
KeysAllowed rel = All (λ e. refused (column rel e.0) ≡ false)

check_keys-KeysAllowed :
    (rel : Relation) (i : ℕ) (row : Row) → Ensures (λ _. KeysAllowed rel row) (check_keys rel i row)
unfolding check_keys
check_keys-KeysAllowed rel i [] = returned tt
check_keys-KeysAllowed rel i ((key, v) ∷ row) =
    Ensures-if (refused (column rel key)) (λ _. failed)
      (λ free. Ensures-map (λ _ rest. (free, rest)) (check_keys-KeysAllowed rel i row))

present-allowed :
    (rel : Relation) (k : Text) (row : Row)
    → KeysAllowed rel row
    → is_present (lookup k row) ≡ true
    → refused (column rel k) ≡ false
unfolding lookup
present-allowed rel k [] h p = cc
present-allowed rel k ((j, v) ∷ row) (free, h) p =
    ground (arith, text_eq-eq j k, present-allowed rel k row h)

-- A column that a statement may write: the row names it, it is writable, and it is not denied.
abbrev pub IsWritten : Row → Column → Type 0
IsWritten row c = (is_present (lookup c.name row) ≡ true) × (c.writable ≡ true) × (c.denied ≡ false)

keep_if-IsWritten :
    (rel : Relation) (row : Row) (cs : List Column)
    → ((p : ℕ) (c : Column) → get_elem? cs p ≡ some c → column rel c.name ≡ some c)
    → KeysAllowed rel row
    → All (IsWritten row) (keep_if (λ c. is_present (lookup c.name row) && c.writable) cs)
keep_if-IsWritten rel row [] found h = tt
keep_if-IsWritten rel row (c ∷ cs) found h =
    let ih = keep_if-IsWritten rel row cs (λ p d e. found (suc p) d e) h in
    let here = found 0 c refl in let open_column = present-allowed rel c.name row h in ground arith

-- One argument for each column, in order, the value that the row has for it.
abbrev pub ArgsFor : Row → List Column → List Arg → Type 0
ArgsFor row [] [] = Unit
ArgsFor row [] (a ∷ args) = ⊥
ArgsFor row (c ∷ cs) [] = ⊥
ArgsFor row (c ∷ cs) (a ∷ args) =
    ((v : Option Text) × (normalize_arg (value_of (lookup c.name row)) c ≡ ok v) × (a ≡ to_arg v))
    × ArgsFor row cs args

rewrap-returned : {A : Type 0} (m : Result A) (w : Msg → Msg) → Ensures (λ a. m ≡ ok a) (rewrap w m)
rewrap-returned (ok a) w = returned refl
rewrap-returned (err e) w = failed

arguments-ArgsFor :
    (i : ℕ) (row : Row) (cs : List Column) → Ensures (ArgsFor row cs) (arguments i row cs)
unfolding arguments
arguments-ArgsFor i row [] = returned tt
arguments-ArgsFor i row (c ∷ cs) =
    Ensures-bind
      (rewrap-returned (normalize_arg (value_of (lookup c.name row)) c) (row_column i c.name))
      (λ v e. Ensures-bind (arguments-ArgsFor i row cs) (λ args h. returned ((v, e, refl), h)))

-- The keys of a row, without their values.
unfoldable pub keys : Row → List Text
keys [] = []
keys ((k, v) ∷ row) = k ∷ keys row

unfoldable pub names_key : Text → List Text → Bool
unfolding text_eq
names_key k [] = false
names_key k (j ∷ js) = if text_eq j k then true else names_key k js

present-names_key : (k : Text) (row : Row) → is_present (lookup k row) ≡ names_key k (keys row)
unfolding lookup keys names_key
present-names_key k [] = refl
present-names_key k ((j, v) ∷ row) = ground (arith, present-names_key k row)

keep_if_same :
    {A : Type 0} (p q : A → Bool) (xs : List A)
    → ((x : A) → p x ≡ q x)
    → keep_if p xs ≡ keep_if q xs
keep_if_same p q [] h = refl
keep_if_same p q (x ∷ xs) h = rw (h x, keep_if_same p q xs h) refl

-- The writable columns that the keys name.
abbrev pub columns_of : Relation → List Text → List Column
columns_of rel ks = keep_if (λ c. names_key c.name ks && c.writable) rel.columns

written_columns-keys :
    (rel : Relation) (row : Row) → written_columns rel row ≡ columns_of rel (keys row)
unfolding written_columns
written_columns-keys rel row =
    keep_if_same (λ c. is_present (lookup c.name row) && c.writable)
      (λ c. names_key c.name (keys row) && c.writable) rel.columns
      (λ c. ap (λ b. b && c.writable) (present-names_key c.name row))

-- The statement for a row: its columns and its text come from the relation and the keys alone.
pub record IsUpsert (rel : Relation) (row : Row) (out : Statement × List Projected) : Type 0 where
  pub columns_allowed : All (IsWritten row) (columns_of rel (keys row))
  pub arguments_match : ArgsFor row (columns_of rel (keys row)) out.0.args
  pub text_fixed : out.0.sql ≡ upsert_text rel (columns_of rel (keys row))
  pub same_projection : out.1 ≡ (projection rel none).1

with_columns-Ensures :
    (rel : Relation) (i : ℕ) (row : Row) (cs : List Column)
    → cs ≡ columns_of rel (keys row)
    → All (IsWritten row) cs
    → Ensures (IsUpsert rel row) (with_columns rel i row cs)
with_columns-Ensures rel i row [] e h = failed
with_columns-Ensures rel i row (c ∷ cs) e h =
    Ensures-bind (arguments-ArgsFor i row (c ∷ cs)) (λ args fit. returned (record {
      columns_allowed = subst (All (IsWritten row)) e h;
      arguments_match = subst (λ ds. ArgsFor row ds args) e fit;
      text_fixed = ap (upsert_text rel) e;
      same_projection = refl;
    }))

-- On an indexed relation a row that is accepted becomes a statement whose text is made of the
-- relation and the row's keys alone, not of its values. It writes exactly the writable columns that
-- the keys name, none of which is denied, and it binds, in their order, exactly the values that the
-- row has for them.
pub build_upsert-IsUpsert :
    (rel : Relation) (i : ℕ) (row : Row) (out : Statement × List Projected)
    → IsIndexed rel
    → build_upsert rel i row ≡ ok out
    → IsUpsert rel row out
unfolding build_upsert written_columns
build_upsert-IsUpsert rel i row out indexed h =
    Ensures-ok
      (Ensures-bind (check_keys-KeysAllowed rel i row) (λ _ allowed.
        with_columns-Ensures rel i row (written_columns rel row) (written_columns-keys rel row) (
          keep_if-IsWritten rel row rel.columns (λ p c e. column_complete rel p c indexed e)
            allowed)))
      h

-- On an indexed relation two accepted rows with the same keys have the same statement text and the
-- same result columns: no value of a row reaches the text.
pub build_upsert-keys :
    (rel : Relation) (i : ℕ) (row row' : Row) (out out' : Statement × List Projected)
    → IsIndexed rel
    → keys row ≡ keys row'
    → build_upsert rel i row ≡ ok out
    → build_upsert rel i row' ≡ ok out'
    → (out.0.sql ≡ out'.0.sql) × (out.1 ≡ out'.1)
build_upsert-keys rel i row row' out out' indexed e h h' =
    let a = build_upsert-IsUpsert rel i row out indexed h in
    let b = build_upsert-IsUpsert rel i row' out' indexed h' in
    (
      a.text_fixed ∙ ap (λ ks. upsert_text rel (columns_of rel ks)) e ∙ sym b.text_fixed,
      a.same_projection ∙ sym b.same_projection,
    )
