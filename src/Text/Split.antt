-- ===== src/Text/Split.antt =====
-- `s.split(sep)` for a separator of one character, and `sep.join(parts)`.
use Prim.Native.Char.{Char, code}
use text.Mathlib.TextLemmas.{cons-append, nil-append}
use text.Mathlib.TextEquality.{Char-path}
use aros_toolchains.Prelude.{
  String, if◌then◌else◌, List, [], ◌∷◌, ◌==◌, nat_eq, ◌≡◌, refl, ap, sym, Bool-cases, inl, inr,
  arith, ◌<>◌, ◌≢◌,
}

-- Put a character before the first part.
abbrev pub push : Char → List String → List String
push c [] = String.◌∷◌ c String.[] ∷ []
push c (w ∷ ws) = String.◌∷◌ c w ∷ ws

unfoldable pub split : Char → String → List String
split sep String.[] = "" ∷ []
split sep (String.◌∷◌ c s) =
    let rest = split sep s in if code c == code sep then "" ∷ rest else push c rest

unfoldable pub join : Char → List String → String
join sep [] = ""
join sep (w ∷ []) = w
join sep (w ∷ v ∷ ws) = w <> String.◌∷◌ sep (join sep (v ∷ ws))

push-ne-nil : (c : Char) (ws : List String) → push c ws ≢ []
push-ne-nil c [] = λ h. cc
push-ne-nil c (w ∷ ws) = λ h. cc

module _ (sep : Char) where
  join-push :
      (c : Char) (ws : List String) → ws ≢ [] → join sep (push c ws) ≡ String.◌∷◌ c (join sep ws)
  unfolding join
  join-push c [] h = absurd (h refl)
  join-push c (w ∷ []) h = refl
  join-push c (w ∷ v ∷ ws) h = cons-append c w (String.◌∷◌ sep (join sep (v ∷ ws)))

  join-empty : (ws : List String) → ws ≢ [] → join sep ("" ∷ ws) ≡ String.◌∷◌ sep (join sep ws)
  unfolding join
  join-empty [] h = absurd (h refl)
  join-empty (w ∷ ws) h = nil-append (String.◌∷◌ sep (join sep (w ∷ ws)))

  pub split-ne-nil : (s : String) → split sep s ≢ []
  unfolding split
  split-ne-nil String.[] = λ h. cc
  split-ne-nil (String.◌∷◌ c s) = λ h. push-ne-nil c (split sep s) (ground arith)

  -- Joining the parts of a text gives the text back.
  pub join-split : (s : String) → join sep (split sep s) ≡ s
  unfolding split join
  join-split String.[] = refl
  join-split (String.◌∷◌ c s) = elim (Bool-cases (code c == code sep)) [
    | inl e ↦
        rw (e, join-empty (split sep s) (split-ne-nil s), join-split s)
          (ap (λ d. String.◌∷◌ d s) (sym (Char-path c sep (ground arith))))
    | inr e ↦ rw (e, join-push c (split sep s) (split-ne-nil s), join-split s) refl
  ]
