-- ===== src/ArtifactOrigin.antt =====
-- scripts/toolchain/artifact-origin.py: the file names that a signed inventory may hold, and in the
-- children Provider and Token what the provider and the runner say.
pub mod Provider
pub mod Token
pub mod Inventory
pub mod Archive
pub mod Source
pub mod Selection
pub mod Reader
pub mod Examples
use Prim.Native.Char.{Char, code}
use aros_toolchains.Prelude.{
  ℕ, suc, ◌+◌, String, Bool, true, false, ◌&&◌, ◌||◌, not, if◌then◌else◌, List, [], ◌∷◌, ◌++◌,
  Option, none, some, Result, ok, raise, origin_error, require, fold, ◌>>=◌, ◌>>◌, ◌==◌, Eq,
  string_eq, nat_eq, pair_eq, list_eq, Dict, lookup, insert, map, length, leb, ltb, all,
}
use aros_toolchains.Text.{char_count, all_chars, first_char, is_alnum, one_of, is_upper}
use aros_toolchains.Text.Split.{split, join}

abbrev pub max_files : ℕ
max_files = 8192

-- `PAYLOAD_SEGMENT`
abbrev pub is_payload_segment : String → Bool
is_payload_segment s =
    first_char is_alnum s
    && all_chars (λ c. is_alnum c || one_of "._+-" c) s
    && leb (char_count s) 255

unfoldable pub portable_path : String → Bool
unfolding split
portable_path name =
    ltb 0 (char_count name)
    && leb (char_count name) 1024
    && leb (length (split "/" name)) 16
    && all (λ part. is_payload_segment part && not (part == "." || part == "..")) (split "/" name)

-- `text.lower()`; the texts that are compared are ASCII, where it changes the letters A to Z.
abbrev pub lower_char : ℕ → ℕ
lower_char c = if is_upper c then c + 32 else c

abbrev pub lower : String → List ℕ
lower String.[] = []
lower (String.◌∷◌ c s) = lower_char (code c) ∷ lower s

-- Whether a prefix of a name is a file or a directory on the way to it, a text in the source.
pub data Kind : Type 0 where
  file directory : Kind

kind_dec : Discrete Kind
kind_dec file file = yes (λ i. file)
kind_dec file directory = no (λ p. cc)
kind_dec directory file = no (λ p. cc)
kind_dec directory directory = yes (λ i. directory)

instance unfoldable pub kind_eq : Eq Kind
unfolding kind_dec
kind_eq = record { dec = kind_dec }

-- The nonempty prefixes of the components, the shortest first, each with its kind.
abbrev pub prefixes : List String → List (List String × Kind)
prefixes [] = []
prefixes (w ∷ []) = (w ∷ [], file) ∷ []
prefixes (w ∷ v ∷ ws) = (w ∷ [], directory) ∷ map (λ p. (w ∷ p.0, p.1)) (prefixes (v ∷ ws))

abbrev pub Place : Type 0
Place = String × Kind

unfoldable pub places : String → List Place
unfolding split join
places name = map (λ p. (join "/" p.0, p.1)) (prefixes (split "/" name))

-- The places that were seen, by their folded text.
abbrev pub Seen : Type 0
Seen = Dict (List ℕ) Place

abbrev pub may_stand : Option Place → Place → Bool
may_stand none place = true
may_stand (some seen) place = seen == place

-- One round of the inner loop.
unfoldable pub add_place : Seen → Place → Result Seen
add_place seen place = do
  require (may_stand (lookup (lower place.0) seen) place)
      (origin_error "signed paths are case-aliased or have file/directory conflicts")
  ok (insert (lower place.0) place seen)

-- One round of the outer loop.
unfoldable pub add_name : Seen → String → Result Seen
unfolding portable_path places add_place
add_name seen name = do
  require (portable_path name) (origin_error "signed paths are unsafe")
  fold add_place seen (places name)

-- The keys of the dict of files.
unfoldable pub require_portable_inventory : List String → Result (Unit {0})
unfolding add_name
require_portable_inventory names = do
  require (ltb 0 (length names) && leb (length names) max_files)
      (origin_error "signed file inventory is invalid")
  seen ← fold add_name [] names
  ok tt
