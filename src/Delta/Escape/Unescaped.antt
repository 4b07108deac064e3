-- ===== src/Delta/Escape/Unescaped.antt =====
-- An escaped text holds no character of markup, and it is read back as it was.
use mathlib.Core.List.{append_assoc}
use mathlib.Core.Path.{subst}
use salience.Base.{
  ℕ, zero, suc, ◌≤◌, ◌≡◌, refl, sym, ap, ◌∙◌, Text, codes, [], ◌∷◌, ◌++◌, Bool, true, false,
  Bool-cases, inl, inr, not, ◌&&◌, ◌||◌, Option, none, some, arith, ◌==◌, length, if◌then◌else◌,
}
use salience.Json.{Value}
use salience.Delta.Escape.{replace_all, escape, shown, esc}

replace_all-append :
    (c : ℕ) (r s t : Text) → replace_all c r (s ++ t) ≡ replace_all c r s ++ replace_all c r t
unfolding replace_all
replace_all-append c r [] t = refl
replace_all-append c r (d ∷ s) t = elim (Bool-cases (d == c)) [
  | inl e ↦ rw e (ap (λ u. r ++ u) (replace_all-append c r s t) ∙ sym (append_assoc r _ _))
  | inr e ↦ rw e (ap (λ u. d ∷ u) (replace_all-append c r s t))
]

-- The reference: each character on its own.
abbrev pub entity : ℕ → Text
entity c =
    if c == b'&'
    then codes "&amp;"
    else (if c == b'<'
        then codes "&lt;"
        else (if c == b'>'
            then codes "&gt;"
            else (if c == b'"'
                then codes "&quot;"
                else (if c == b'\'' then codes "&#39;" else c ∷ []))))

escape-one : (c : ℕ) → escape (c ∷ []) ≡ entity c
unfolding escape replace_all
escape-one c = elim (Bool-cases (c == b'&')) [
  | inl e ↦ rw e refl
  | inr e ↦ rw e (elim (Bool-cases (c == b'<')) [
    | inl f ↦ rw f refl
    | inr f ↦ rw f (elim (Bool-cases (c == b'>')) [
      | inl g ↦ rw g refl
      | inr g ↦ rw g (elim (Bool-cases (c == b'"')) [ inl h ↦ rw h refl | inr h ↦ rw h refl ])
    ])
  ])
]

escape-append : (s t : Text) → escape (s ++ t) ≡ escape s ++ escape t
unfolding escape
escape-append s t =
    rw
      (
        replace_all-append, replace_all-append, replace_all-append, replace_all-append,
        replace_all-append,
      )
      refl

escape-cons : (c : ℕ) (t : Text) → escape (c ∷ t) ≡ entity c ++ escape t
escape-cons c t = escape-append (c ∷ []) t ∙ ap (λ u. u ++ escape t) (escape-one c)

-- A character that begins no tag and ends no attribute.
abbrev pub is_inert : ℕ → Bool
is_inert c = not (c == b'<' || c == b'>' || c == b'"' || c == b'\'')

module _ (P : ℕ → Text → Type 0) (ampersand : P b'&' (codes "&amp;")) (less : P b'<' (codes "&lt;"))
    (greater : P b'>' (codes "&gt;")) (quote : P b'"' (codes "&quot;"))
    (apostrophe : P b'\'' (codes "&#39;"))
    (plain : (c : ℕ) → (c == b'&') ≡ false → is_inert c ≡ true → P c (c ∷ [])) where
  at : (c d : ℕ) (t : Text) → (c == d) ≡ true → P d t → P c t
  at c d t e p = let same : d ≡ c = ground (arith, e) in subst (λ x. P x t) same p

  -- What holds of the five entities, and of the other characters, holds of all.
  entity_lem : (c : ℕ) → P c (entity c)
  entity_lem c = elim (Bool-cases (c == b'&')) [
    | inl e ↦ rw e (at c b'&' _ e ampersand)
    | inr e ↦ rw e (elim (Bool-cases (c == b'<')) [
      | inl f ↦ rw f (at c b'<' _ f less)
      | inr f ↦ rw f (elim (Bool-cases (c == b'>')) [
        | inl g ↦ rw g (at c b'>' _ g greater)
        | inr g ↦ rw g (elim (Bool-cases (c == b'"')) [
          | inl h ↦ rw h (at c b'"' _ h quote)
          | inr h ↦ rw h (elim (Bool-cases (c == b'\'')) [
            | inl k ↦ rw k (at c b'\'' _ k apostrophe)
            | inr k ↦ rw k (plain c e (rw (f, g, h, k) refl))
          ])
        ])
      ])
    ])
  ]

-- What stands behind a prefix.
unfoldable pub behind : Text → Text → Option Text
behind [] t = some t
behind (p ∷ ps) [] = none
behind (p ∷ ps) (c ∷ t) = let rest = behind ps t in if p == c then rest else none

abbrev first_of : ℕ → Option Text → Option (ℕ × Text) → Option (ℕ × Text)
first_of c none other = other
first_of c (some rest) other = some (c, rest)

-- The character that the entity at the beginning of a text stands for, and the text behind it.
unfoldable pub entity_at : Text → Option (ℕ × Text)
unfolding behind
entity_at t = first_of b'&' (behind (codes "&amp;") t) (
    first_of b'<' (behind (codes "&lt;") t) (
      first_of b'>' (behind (codes "&gt;") t) (
        first_of b'"' (behind (codes "&quot;") t)
          (first_of b'\'' (behind (codes "&#39;") t) none))))

-- A reader of markup, on fuel: entities stand for their characters, and all else for itself.
unfoldable pub read_text : ℕ → Text → Text
read_text zero t = []
read_text (suc n) [] = []
read_text (suc n) (c ∷ t) = elim (entity_at (c ∷ t)) [
  | some (d, rest) ↦ d ∷ read_text n rest
  | none ↦ c ∷ read_text n t
]

entity_at-plain : (c : ℕ) (t : Text) → (c == b'&') ≡ false → entity_at (c ∷ t) ≡ none
unfolding entity_at
entity_at-plain c t e = let f : (b'&' == c) ≡ false = ground (arith, e) in rw f refl

read_entity : (n c : ℕ) (t : Text) → read_text (suc n) (entity c ++ t) ≡ c ∷ read_text n t
unfolding read_text entity_at
read_entity n c t =
    entity_lem (λ d u. read_text (suc n) (u ++ t) ≡ d ∷ read_text n t) refl refl refl refl refl
      (λ d e _.
        ap (λ o. elim o [ some (x, rest) ↦ x ∷ read_text n rest | none ↦ d ∷ read_text n t ])
          (entity_at-plain d t e))
      c

abbrev pub all_inert : Text → Bool
all_inert [] = true
all_inert (c ∷ t) = is_inert c && all_inert t

all_inert-append : (s t : Text) → all_inert (s ++ t) ≡ (all_inert s && all_inert t)
all_inert-append [] t = refl
all_inert-append (c ∷ s) t = ground (arith, all_inert-append s t)

entity-inert : (c : ℕ) → all_inert (entity c) ≡ true
entity-inert c =
    entity_lem (λ d u. all_inert u ≡ true) refl refl refl refl refl (λ d _ e. rw e refl) c

escape-inert : (t : Text) → all_inert (escape t) ≡ true
unfolding escape replace_all
escape-inert [] = refl
escape-inert (c ∷ t) =
    ap all_inert (escape-cons c t)
    ∙ all_inert-append (entity c) (escape t)
    ∙ rw (entity-inert c, escape-inert t) refl

read_text-escape : (n : ℕ) (t : Text) → length t ≤ n → read_text n (escape t) ≡ t
unfolding read_text escape replace_all
read_text-escape zero [] l = refl
read_text-escape zero (c ∷ t) l = ground (arith, l)
read_text-escape (suc n) [] l = refl
read_text-escape (suc n) (c ∷ t) l =
    ap (read_text (suc n)) (escape-cons c t)
    ∙ read_entity n c (escape t)
    ∙ ap (λ u. c ∷ u) (read_text-escape n t (ground (arith, l)))

-- What `esc` makes of a value begins no tag and ends no attribute, and a reader of markup with fuel for
-- every character of the value's text gives that text back.
pub read_text-esc :
    (n : ℕ) (value : Value)
    → length (shown value) ≤ n
    → (all_inert (esc value) ≡ true) × (read_text n (esc value) ≡ shown value)
unfolding esc
read_text-esc n value l = (escape-inert (shown value), read_text-escape n (shown value) l)
