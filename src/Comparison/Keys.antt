-- ===== src/Comparison/Keys.antt =====
-- When two secrets have the same key in morf/utils/comparison.go: the key joins three texts by "|", so
-- it tells them apart if neither the values nor the file names have a "|".
use Prim.Native.Char.{code}
use Prim.Native.String.{◌++◌ as append}
use text.Mathlib.TextLemmas.{
  nil-append, cons-append, append_cancel_left, head-eq_of_cons-eq, tail-eq_of_cons-eq,
}
use morf.Prelude.{
  ◌≡◌, refl, sym, ap, ◌∙◌, String, Bool, true, not, ◌&&◌, Option, none, some, List, [], ◌∷◌, All,
  any, select, str_eq, eq_iff, eq_refl, ◌==◌, arith, Bool-cases, inl, inr,
}
use morf.Comparison.{Json, get_secret_key, has_secret, or_blank, line_text}

abbrev pub bar_free : String → Bool
bar_free String.[] = true
bar_free (String.◌∷◌ c s) = not (code c == 124) && bar_free s

after_bar : (x : String) → append "|" x ≡ String.◌∷◌ "|" x
after_bar x = cons-append "|" String.[] x ∙ ap (String.◌∷◌ "|") (nil-append x)

-- the text before the first "|", and the text after it
split_unique :
    (a b x y : String)
    → bar_free a ≡ true
    → bar_free b ≡ true
    → append a (append "|" x) ≡ append b (append "|" y)
    → (a ≡ b) × (x ≡ y)
split_unique String.[] String.[] x y h k e =
    (refl, append_cancel_left "|" x y (sym (nil-append _) ∙ e ∙ nil-append _))
split_unique String.[] (String.◌∷◌ c b) x y h k e =
    let heads =
      head-eq_of_cons-eq (sym (nil-append (append "|" x) ∙ after_bar x) ∙ e ∙ cons-append c b _) in
    absurd (ground (arith, k, ap code heads))
split_unique (String.◌∷◌ c a) String.[] x y h k e =
    let heads =
      head-eq_of_cons-eq (sym (cons-append c a _) ∙ e ∙ nil-append (append "|" y) ∙ after_bar y) in
    absurd (ground (arith, h, ap code heads))
split_unique (String.◌∷◌ c a) (String.◌∷◌ d b) x y h k e =
    let joined = sym (cons-append c a _) ∙ e ∙ cons-append d b _ in
    let (same, rest) =
      split_unique a b x y (ground (arith, h)) (ground (arith, k)) (tail-eq_of_cons-eq joined) in
    (cc (same, head-eq_of_cons-eq joined), rest)

module _ (json : Json) where
  open json use {Value, string_member, number_member}

  abbrev or_else_blank : Option String → String
  or_else_blank none = ""
  or_else_blank (some s) = s

  abbrev or_number : Option String → Option String → String
  or_number (some s) n = s
  or_number none n = or_else_blank n

  abbrev pub secret_value : Value → String
  secret_value v = or_else_blank (string_member v "secretString")

  abbrev pub file_location : Value → String
  file_location v = or_else_blank (string_member v "fileLocation")

  abbrev pub line_no : Value → String
  line_no v = or_number (string_member v "lineNo") (number_member v "lineNo")

  -- the same value at the same line of the same file
  abbrev pub same_secret : Value → Value → Bool
  same_secret s t =
      str_eq (secret_value s) (secret_value t)
      && str_eq (file_location s) (file_location t)
      && str_eq (line_no s) (line_no t)

  abbrev pub IsPlain : Value → Type 0
  IsPlain v = (bar_free (secret_value v) ≡ true) × (bar_free (file_location v) ≡ true)

  blank_same : (o : Option String) → or_blank json o ≡ or_else_blank o
  blank_same none = refl
  blank_same (some s) = refl

  line_same : (o n : Option String) → line_text json o n ≡ or_number o n
  line_same none n = blank_same n
  line_same (some s) n = refl

  key_parts :
      (s : Value)
      → get_secret_key json s
        ≡ append (secret_value s) (append "|" (append (file_location s) (append "|" (line_no s))))
  unfolding get_secret_key
  key_parts s =
      rw
        (
          blank_same (string_member s "secretString"),
          blank_same (string_member s "fileLocation"),
          line_same (string_member s "lineNo") (number_member s "lineNo"),
        )
        refl

  get_secret_key-same_secret :
      (s t : Value)
      → IsPlain s
      → IsPlain t
      → str_eq (get_secret_key json s) (get_secret_key json t) ≡ same_secret s t
  get_secret_key-same_secret s t h k =
      elim (Bool-cases (str_eq (get_secret_key json s) (get_secret_key json t))) [
        | inl e ↦
            let keys =
              sym (key_parts s)
              ∙ (eq_iff (get_secret_key json s) (get_secret_key json t)).0 e
              ∙ key_parts t in
            let (value, rest) = split_unique (secret_value s) (secret_value t) _ _ h.0 k.0 keys in
            let (file, line) = split_unique (file_location s) (file_location t) _ _ h.1 k.1 rest in
            rw
              (
                e,
                value,
                file,
                line,
                eq_refl (secret_value t),
                eq_refl (file_location t),
                eq_refl (line_no t),
              )
              refl
        | inr e ↦ elim (Bool-cases (same_secret s t)) [
          | inr d ↦ e ∙ sym d
          | inl d ↦
              let value = (eq_iff (secret_value s) (secret_value t)).0 (ground (arith, d)) in
              let file = (eq_iff (file_location s) (file_location t)).0 (ground (arith, d)) in
              let line = (eq_iff (line_no s) (line_no t)).0 (ground (arith, d)) in
              let keys =
                key_parts s
                ∙ ap
                    (λ v. append v (append "|" (append (file_location s) (append "|" (line_no s)))))
                    value
                ∙ ap (λ f. append (secret_value t) (append "|" (append f (append "|" (line_no s)))))
                    file
                ∙ ap
                    (λ l.
                      append (secret_value t)
                        (append "|" (append (file_location t) (append "|" l))))
                    line
                ∙ sym (key_parts t) in
              absurd (cc (e, (eq_iff (get_secret_key json s) (get_secret_key json t)).1 keys))
        ]
      ]

  has_secret-same_secret :
      (s : Value) (secrets : List Value)
      → IsPlain s
      → All IsPlain secrets
      → has_secret json secrets s ≡ any (λ t. same_secret t s) secrets
  unfolding has_secret
  has_secret-same_secret s [] h k = refl
  has_secret-same_secret s (t ∷ rest) h k =
      rw (get_secret_key-same_secret t s k.0 h, has_secret-same_secret s rest h k.1) refl

  -- the secrets of one list that are in the other, and those that are not
  pub select-same_secret :
      (others secrets : List Value)
      → All IsPlain others
      → All IsPlain secrets
      → (select (has_secret json others) secrets
          ≡ select (λ s. any (λ t. same_secret t s) others) secrets)
        × (select (λ s. not (has_secret json others s)) secrets
            ≡ select (λ s. not (any (λ t. same_secret t s) others)) secrets)
  select-same_secret others [] h k = (refl, refl)
  select-same_secret others (s ∷ rest) h k =
      let (kept, left) = select-same_secret others rest h k.1 in
      let same = has_secret-same_secret s others k.0 h in
      (rw (same, kept) refl, rw (same, left) refl)
