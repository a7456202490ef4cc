-- ===== src/CacheArchive/Stripped.antt =====
-- `_normalized_member_path`: what is taken off a name before its checks, and that it can be put back.
use Prim.Native.Char.{Char, code}
use text.Mathlib.TextLemmas.{
  cons-append, nil-append, append-nil, cons≢nil, head-eq_of_cons-eq, tail-eq_of_cons-eq,
}
use text.Mathlib.TextEquality.{Char-path}
use aros_toolchains.Prelude.{
  String, Bool, true, false, ◌||◌, not, Option, none, some, some_injective, ◌==◌, ◌<>◌, string_eq,
  nat_eq, all, eq_of_test, test_refl, ◌≡◌, ◌≢◌, refl, ap, sym, ◌∙◌, Bool-cases, inl, inr, ◌⊎◌,
}
use aros_toolchains.Text.{last_char, strip_prefix}
use aros_toolchains.Text.Prefix.{strip_prefix-eq, strip_prefix-append}
use aros_toolchains.Text.Split.{split}
use aros_toolchains.CacheArchive.Records.{
  without_dot_slash, without_slash, drop_last_char, is_slash, is_unsafe_component,
}
use aros_toolchains.CacheArchive.Paths.{IsSafePath}

-- The name is the path, after at most one `./`, and before at most one slash if it is a directory's.
pub record IsReadAs (name : String) (is_dir : Bool) (path : String) : Type 0 where
  pub start : String
  pub end : String
  pub parts : name ≡ start <> (path <> end)
  pub starts : (start ≡ "") ⊎ (start ≡ "./")
  pub ends : (end ≡ "") ⊎ ((end ≡ "/") × (is_dir ≡ true))

append-drop_last_char : (s : String) → last_char is_slash s ≡ true → s ≡ drop_last_char s <> "/"
append-drop_last_char String.[] h = absurd (cc)
append-drop_last_char (String.◌∷◌ c String.[]) h =
    ap (λ k. String.◌∷◌ k "") (Char-path c "/" (eq_of_test (code c) 47 h))
append-drop_last_char (String.◌∷◌ c (String.◌∷◌ d s)) h =
    ap (String.◌∷◌ c) (append-drop_last_char (String.◌∷◌ d s) h)
    ∙ sym (cons-append c (drop_last_char (String.◌∷◌ d s)) "/")

last_char-append : (s : String) → last_char is_slash (s <> "/") ≡ true
unfolding nat_eq
last_char-append String.[] = refl
last_char-append (String.◌∷◌ c String.[]) = rw (cons-append c "" "/") refl
last_char-append (String.◌∷◌ c (String.◌∷◌ d s)) =
    rw (cons-append c (String.◌∷◌ d s) "/", cons-append d s "/")
      (sym (rw (cons-append d s "/") refl) ∙ last_char-append (String.◌∷◌ d s))

drop_last_char-append : (s : String) → drop_last_char (s <> "/") ≡ s
drop_last_char-append String.[] = refl
drop_last_char-append (String.◌∷◌ c String.[]) = rw (cons-append c "" "/") refl
drop_last_char-append (String.◌∷◌ c (String.◌∷◌ d s)) =
    rw (cons-append c (String.◌∷◌ d s) "/", cons-append d s "/")
      (ap (String.◌∷◌ c)
        (sym (rw (cons-append d s "/") refl) ∙ drop_last_char-append (String.◌∷◌ d s)))

-- A name as what is left of it, with what is taken off.
without_slash-IsReadAs :
    (start name : String) (is_dir : Bool) (rest : String)
    → name ≡ start <> rest
    → (start ≡ "") ⊎ (start ≡ "./")
    → IsReadAs name is_dir (without_slash is_dir rest)
without_slash-IsReadAs start name true rest e s = elim (Bool-cases (last_char is_slash rest)) [
  | inl f ↦ rw f (record {
    start = start;
    end = "/";
    parts = e ∙ ap (λ t. start <> t) (append-drop_last_char rest f);
    starts = s;
    ends = inr (refl, refl);
  })
  | inr f ↦ rw f (record {
    start = start;
    end = "";
    parts = e ∙ ap (λ t. start <> t) (sym (append-nil rest));
    starts = s;
    ends = inl refl;
  })
]
without_slash-IsReadAs start name false rest e s = record {
  start = start;
  end = "";
  parts = e ∙ ap (λ t. start <> t) (sym (append-nil rest));
  starts = s;
  ends = inl refl;
}

pub stripped-IsReadAs :
    (name : String) (is_dir : Bool) (o : Option String)
    → strip_prefix "./" name ≡ o
    → IsReadAs name is_dir (without_slash is_dir (elim o [ none ↦ name | some rest ↦ rest ]))
stripped-IsReadAs name is_dir none e =
    without_slash-IsReadAs "" name is_dir name (sym (nil-append name)) (inl refl)
stripped-IsReadAs name is_dir (some rest) e =
    without_slash-IsReadAs "./" name is_dir rest (strip_prefix-eq "./" name rest e) (inr refl)

-- A path has no component `.`, so that it is not `.` and does not start with `./`.
is_dot : (c : Char) → (code c == 46) ≡ true → c ≡ "."
is_dot c h = Char-path c "." (eq_of_test (code c) 46 h)

dot_unsafe :
    (s : String) → s ≡ "." → all (λ part. not (is_unsafe_component part)) (split "/" s) ≡ true → ⊥
unfolding split string_eq nat_eq
dot_unsafe s e h = false-ne-true (sym (rw e refl) ∙ h)
  where
    false-ne-true : false ≡ true → ⊥
    false-ne-true h = cc

dot_slash_unsafe :
    (s t : String)
    → t ≡ String.◌∷◌ "." (String.◌∷◌ "/" s)
    → all (λ part. not (is_unsafe_component part)) (split "/" t) ≡ true
    → ⊥
unfolding split string_eq nat_eq
dot_slash_unsafe s t e h = false-ne-true (sym (rw e refl) ∙ h)
  where
    false-ne-true : false ≡ true → ⊥
    false-ne-true h = cc

no_dot_slash :
    (p end rest : String)
    → p ≢ ""
    → all (λ part. not (is_unsafe_component part)) (split "/" p) ≡ true
    → p <> end ≡ "./" <> rest
    → ⊥
no_dot_slash String.[] end rest h safe e = h refl
no_dot_slash (String.◌∷◌ c String.[]) end rest h safe e =
    dot_unsafe (String.◌∷◌ c "")
      (ap (λ k. String.◌∷◌ k "")
        (head-eq_of_cons-eq (sym (cons-append c "" end) ∙ e ∙ cons-append "." "/" rest)))
      safe
no_dot_slash (String.◌∷◌ c (String.◌∷◌ d s)) end rest h safe e =
    let both : String.◌∷◌ c (String.◌∷◌ d s <> end) ≡ String.◌∷◌ "." ("/" <> rest) =
      sym (cons-append c (String.◌∷◌ d s) end) ∙ e ∙ cons-append "." "/" rest in
    let below : String.◌∷◌ d (s <> end) ≡ String.◌∷◌ "/" ("" <> rest) =
      sym (cons-append d s end) ∙ tail-eq_of_cons-eq both ∙ cons-append "/" "" rest in
    dot_slash_unsafe s (String.◌∷◌ c (String.◌∷◌ d s))
      (ap (λ k. String.◌∷◌ k (String.◌∷◌ d s)) (head-eq_of_cons-eq both)
        ∙ ap (λ k. String.◌∷◌ "." (String.◌∷◌ k s)) (head-eq_of_cons-eq below))
      safe

nothing : (s end : String) → s <> end ≡ "" → s ≡ ""
nothing String.[] end e = refl
nothing (String.◌∷◌ d s) end e = absurd (cons≢nil (sym (cons-append d s end) ∙ e))

unequal : (s t : String) → s ≢ t → (s == t) ≡ false
unequal s t h = elim (Bool-cases (s == t)) [ inl e ↦ absurd (h (eq_of_test s t e)) | inr e ↦ e ]

no_dot :
    (p end : String)
    → p ≢ ""
    → all (λ part. not (is_unsafe_component part)) (split "/" p) ≡ true
    → p <> end ≡ "."
    → ⊥
no_dot String.[] end h safe e = h refl
no_dot (String.◌∷◌ c s) end h safe e =
    let both : String.◌∷◌ c (s <> end) ≡ String.◌∷◌ "." "" = sym (cons-append c s end) ∙ e in
    dot_unsafe (String.◌∷◌ c s)
      (ap (λ k. String.◌∷◌ k s) (head-eq_of_cons-eq both)
        ∙ ap (String.◌∷◌ ".") (nothing s end (tail-eq_of_cons-eq both)))
      safe

module _ (path end : String) (is_dir : Bool) (safe : IsSafePath path)
    (ends : (end ≡ "") ⊎ ((end ≡ "/") × (is_dir ≡ true))) where
  path_some : path ≢ ""
  path_some e =
      true-ne-false (sym (ap (λ t. t == "") e ∙ test_refl {A = String} "") ∙ safe.nonempty)
    where
      true-ne-false : true ≡ false → ⊥
      true-ne-false h = cc

  pub without_slash_back : without_slash is_dir (path <> end) ≡ path
  without_slash_back = elim ends [
    | inl e ↦
        rw (e, append-nil path)
          (rw safe.closed (elim (Bool-cases is_dir) [ inl f ↦ rw f refl | inr f ↦ rw f refl ]))
    | inr e ↦ rw (e.0, e.1) (rw (last_char-append path) (drop_last_char-append path))
  ]

  pub without_dot_slash_back :
      (start : String)
      → (start ≡ "") ⊎ (start ≡ "./")
      → without_dot_slash (start <> (path <> end)) ≡ path <> end
  without_dot_slash_back start starts = elim starts [
    | inl e ↦ rw (e, nil-append (path <> end)) (none_off (strip_prefix "./" (path <> end)) refl)
    | inr e ↦ rw e (
        some_off (strip_prefix "./" ("./" <> (path <> end)))
          (strip_prefix-append "./" (path <> end)))
  ]
    where
      some_off :
          (o : Option String)
          → o ≡ some (path <> end)
          → elim o [ none ↦ "./" <> (path <> end) | some rest ↦ rest ] ≡ path <> end
      some_off none e = absurd (cc)
      some_off (some rest) e = some_injective e

      none_off :
          (o : Option String)
          → strip_prefix "./" (path <> end) ≡ o
          → elim o [ none ↦ path <> end | some rest ↦ rest ] ≡ path <> end
      none_off none e = refl
      none_off (some rest) e = absurd (
          no_dot_slash path end rest path_some safe.components
            (strip_prefix-eq "./" (path <> end) rest e))

  pub not_root :
      (start : String)
      → (start ≡ "") ⊎ (start ≡ "./")
      → (start <> (path <> end) == "." || start <> (path <> end) == "./") ≡ false
  unfolding nat_eq
  not_root start starts =
      rw
        (
          unequal (start <> (path <> end)) "." (λ e. elim starts [
            | inl f ↦
                no_dot path end path_some safe.components
                  (sym (nil-append (path <> end)) ∙ (ap (λ t. t <> (path <> end)) (sym f) ∙ e))
            | inr f ↦ cons≢nil (
                sym (cons-append "/" "" (path <> end))
                ∙ tail-eq_of_cons-eq (
                    sym (cons-append "." "/" (path <> end))
                    ∙ (ap (λ t. t <> (path <> end)) (sym f) ∙ e)))
          ]),
          unequal (start <> (path <> end)) "./" (λ e. elim starts [
            | inl f ↦
                no_dot_slash path end "" path_some safe.components
                  (sym (nil-append (path <> end)) ∙ (ap (λ t. t <> (path <> end)) (sym f) ∙ e))
            | inr f ↦ path_some (
                nothing path end (
                  some_injective (
                    sym (strip_prefix-append "./" (path <> end))
                    ∙ ap (strip_prefix "./") (ap (λ t. t <> (path <> end)) (sym f) ∙ e))))
          ]),
        )
        refl
