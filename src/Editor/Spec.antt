-- ===== src/Editor/Spec.antt =====
-- What the editing commands of arch/x86/snake/snake.c promise: edits of a text with a cursor.
use cobra_os.Base.{ℕ, ◌≡◌, refl, ap, List, [], ◌∷◌, ◌++◌}
use cobra_os.Editor.Page.{View}

module _ {A : Type 0} where
  -- a list without its last element
  abbrev pub but_last : List A → List A
  but_last [] = []
  but_last (x ∷ []) = []
  but_last (x ∷ y ∷ l) = x ∷ but_last (y ∷ l)

  abbrev pub last_or : List A → A → A
  last_or [] d = d
  last_or (x ∷ []) d = x
  last_or (x ∷ y ∷ l) d = last_or (y ∷ l) d

  pub but_last-snoc : (l : List A) (x : A) → but_last (l ++ (x ∷ [])) ≡ l
  but_last-snoc [] x = refl
  but_last-snoc (y ∷ []) x = refl
  but_last-snoc (y ∷ z ∷ l) x = ap (λ t. y ∷ t) (but_last-snoc (z ∷ l) x)

  pub last_or-snoc : (l : List A) (x d : A) → last_or (l ++ (x ∷ [])) d ≡ x
  last_or-snoc [] x d = refl
  last_or-snoc (y ∷ []) x d = refl
  last_or-snoc (y ∷ z ∷ l) x d = last_or-snoc (z ∷ l) x d

abbrev pub typed : ℕ → View → View
typed c v = record v { before = v.before ++ (c ∷ []) }

abbrev pub line_broken : View → View
line_broken v = record v { lines_above = v.lines_above ++ (v.before ∷ []); before = [] }

-- the last line above joined to the cursor's line
abbrev pub joined_above : List (List ℕ) → View → View
joined_above [] v = v
joined_above (l ∷ ls) v = record v { lines_above = but_last (l ∷ ls); before = last_or (l ∷ ls) [] }

-- Backspace: the character before the cursor, or else the line break before it, is removed.
abbrev pub erased_before : List ℕ → View → View
erased_before [] v = joined_above v.lines_above v
erased_before (c ∷ cs) v = record v { before = but_last (c ∷ cs) }

abbrev pub backspaced : View → View
backspaced v = erased_before v.before v

-- the first line below joined to the cursor's line
abbrev pub joined_below : List (List ℕ) → View → View
joined_below [] v = v
joined_below (l ∷ ls) v = record v { after = l; lines_below = ls }

-- Delete: the character at the cursor, or else the line break at it, is removed.
abbrev pub erased_after : List ℕ → View → View
erased_after [] v = joined_below v.lines_below v
erased_after (c ∷ cs) v = record v { after = cs }

abbrev pub deleted : View → View
deleted v = erased_after v.after v

pub erased_before-snoc :
    (cs : List ℕ) (c : ℕ) (v : View) → erased_before (cs ++ (c ∷ [])) v ≡ record v { before = cs }
erased_before-snoc [] c v = refl
erased_before-snoc (d ∷ cs) c v = λ t. record v { before = but_last-snoc (d ∷ cs) c t }

pub joined_above-snoc :
    (ls : List (List ℕ)) (l : List ℕ) (v : View)
    → joined_above (ls ++ (l ∷ [])) v ≡ record v { lines_above = ls; before = l }
joined_above-snoc [] l v = refl
joined_above-snoc (k ∷ ls) l v = λ t. record v {
  lines_above = but_last-snoc (k ∷ ls) l t;
  before = last_or-snoc (k ∷ ls) l [] t;
}
