-- ===== src/Console/Line.antt =====
-- What the console promises: whole lines that wait to be read, and the line being edited.
use quaros.Base.{ℕ, ◌≡◌, refl, ap, Option, none, some, List, [], ◌∷◌, ◌++◌, ◌==◌, if◌then◌else◌}
use quaros.Console.{del, newline}

pub record Line : Type 0 where
  pub lines : List ℕ
  pub edit : List ℕ

abbrev pub drop_last : List ℕ → List ℕ
drop_last [] = []
drop_last (x ∷ []) = []
drop_last (x ∷ y ∷ xs) = x ∷ drop_last (y ∷ xs)

-- A typed character: DEL takes the last character of the line being edited away, a newline
-- releases it.
unfoldable pub typed : ℕ → Line → Line
typed ch l =
    if ch == del
    then record l { edit = drop_last l.edit }
    else if ch == newline
    then record { lines = l.lines ++ (l.edit ++ (ch ∷ [])); edit = [] }
    else record l { edit = l.edit ++ (ch ∷ []) }

-- A read takes the first character of the released lines.
unfoldable pub read_char : Line → Option ℕ × Line
read_char l = elim (l.lines) [ [] ↦ (none, l) | x ∷ xs ↦ (some x, record l { lines = xs }) ]

pub drop_last-snoc : (xs : List ℕ) (x : ℕ) → drop_last (xs ++ (x ∷ [])) ≡ xs
drop_last-snoc [] x = refl
drop_last-snoc (y ∷ []) x = refl
drop_last-snoc (y ∷ z ∷ xs) x = ap (λ t. y ∷ t) (drop_last-snoc (z ∷ xs) x)

pub drop_last-append :
    (xs : List ℕ) (y : ℕ) (ys : List ℕ) → drop_last (xs ++ (y ∷ ys)) ≡ xs ++ drop_last (y ∷ ys)
drop_last-append [] y ys = refl
drop_last-append (x ∷ []) y ys = refl
drop_last-append (x ∷ x' ∷ xs) y ys = ap (λ t. x ∷ t) (drop_last-append (x' ∷ xs) y ys)
