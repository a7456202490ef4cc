-- ===== src/ChangePlan/Records.antt =====
-- plan-changes.py: the records of a raw diff, `_parse_raw_diff`.
use aros_toolchains.Prelude.{
  ℕ, zero, suc, ◌%◌, String, Bool, false, ◌&&◌, ◌||◌, not, if◌then◌else◌, List, [], ◌∷◌, Option,
  none, some, ◌==◌, string_eq, list_eq, pair_eq, nat_eq, length, leb, all,
}

abbrev pub Bytes : Type 0
Bytes = List ℕ

abbrev pub max_diff_bytes : ℕ
max_diff_bytes = 1048576

-- Put a byte before the first field.
abbrev pub push_byte : ℕ → List Bytes → List Bytes
push_byte b [] = (b ∷ []) ∷ []
push_byte b (f ∷ fs) = (b ∷ f) ∷ fs

-- `data.split(sep)` for a separator of one byte
unfoldable pub split_bytes : ℕ → Bytes → List Bytes
split_bytes sep [] = [] ∷ []
split_bytes sep (b ∷ bs) =
    let rest = split_bytes sep bs in if b == sep then [] ∷ rest else push_byte b rest

-- `data[:-1]`
abbrev pub drop_last : Bytes → Bytes
drop_last [] = []
drop_last (b ∷ []) = []
drop_last (b ∷ c ∷ bs) = b ∷ drop_last (c ∷ bs)

-- `data.endswith(bytes([last]))`
abbrev pub ends_in : ℕ → Bytes → Bool
ends_in last [] = false
ends_in last (b ∷ []) = b == last
ends_in last (b ∷ c ∷ bs) = ends_in last (c ∷ bs)

-- `data.endswith(suffix)`
abbrev pub ends_with : Bytes → Bytes → Bool
ends_with suffix [] = suffix == []
ends_with suffix (b ∷ bs) = suffix == b ∷ bs || ends_with suffix bs

abbrev pub is_in : ℕ → ℕ → ℕ → Bool
is_in low high b = leb low b && leb b high

abbrev pub is_octal : ℕ → Bool
is_octal = is_in 48 55

abbrev pub is_decimal : ℕ → Bool
is_decimal = is_in 48 57

abbrev pub is_hex_byte : ℕ → Bool
is_hex_byte b = is_in 48 57 b || is_in 97 102 b

abbrev pub is_upper : ℕ → Bool
is_upper = is_in 65 90

-- `[A-Z][0-9]*`
abbrev pub is_status : Bytes → Bool
is_status [] = false
is_status (b ∷ bs) = is_upper b && all is_decimal bs

infixl 20 ◌>>=◌
abbrev pub ◌>>=◌ {ℓ κ} : {A : Type ℓ} {B : Type κ} → Option A → (A → Option B) → Option B
none >>= f = none
some a >>= f = f a

-- The next n bytes, each of a class, and the rest.
unfoldable pub take_class : ℕ → (ℕ → Bool) → Bytes → Option (Bytes × Bytes)
take_class zero p bs = some ([], bs)
take_class (suc n) p [] = none
take_class (suc n) p (b ∷ bs) =
    take_class n p bs >>= λ both. if p b then some (b ∷ both.0, both.1) else none

abbrev pub take_byte : ℕ → Bytes → Option Bytes
take_byte c [] = none
take_byte c (b ∷ bs) = if b == c then some bs else none

-- The groups of `_RAW_HEADER_RE`.
pub record Header : Type 0 where
  pub old_mode : Bytes
  pub new_mode : Bytes
  pub old_oid : Bytes
  pub new_oid : Bytes
  pub status : Bytes

abbrev pub accept_status : Bytes → Header → Option Header
accept_status status m = if is_status status then some m else none

-- `_RAW_HEADER_RE.fullmatch`
unfoldable pub match_header : Bytes → Option Header
unfolding take_class
match_header header = do
  r0 ← take_byte 58 header
  old_mode ← take_class 6 is_octal r0
  r1 ← take_byte 32 old_mode.1
  new_mode ← take_class 6 is_octal r1
  r2 ← take_byte 32 new_mode.1
  old_oid ← take_class 40 is_hex_byte r2
  r3 ← take_byte 32 old_oid.1
  new_oid ← take_class 40 is_hex_byte r3
  status ← take_byte 32 new_oid.1
  accept_status status (record {
    old_mode = old_mode.0;
    new_mode = new_mode.0;
    old_oid = old_oid.0;
    new_oid = new_oid.0;
    status = status;
  })

pub record Change : Type 0 where
  pub old_mode : Bytes
  pub new_mode : Bytes
  pub status : Bytes
  pub path : Bytes

-- The pair that `_parse_raw_diff` returns: the changes, or the reason why there are none.
pub data Parsed : Type 0 where
  parsed : List Change → Parsed
  parse_error : String → Parsed

-- `status[:1] in (b"R", b"C")`
abbrev pub is_rename_or_copy : Bytes → Bool
is_rename_or_copy [] = false
is_rename_or_copy (b ∷ bs) = b == 82 || b == 67

abbrev pub add_change : Change → Parsed → Parsed
add_change c (parsed cs) = parsed (c ∷ cs)
add_change c (parse_error reason) = parse_error reason

-- One round of the loop, where `rest` is what the later rounds give.
abbrev pub read_record : Option Header → Bytes → Parsed → Parsed
read_record none path rest = parse_error "malformed_diff"
read_record (some m) path rest =
    if path == []
    then parse_error "malformed_diff"
    else if is_rename_or_copy m.status
    then parse_error "rename_or_copy"
    else add_change
        (record { old_mode = m.old_mode; new_mode = m.new_mode; status = m.status; path = path })
        rest

-- The loop over pairs of fields, of which there is an even number.
unfoldable pub parse_records : List Bytes → Parsed
unfolding match_header
parse_records [] = parsed []
parse_records (header ∷ []) = parse_error "malformed_diff"
parse_records (header ∷ path ∷ fields) =
    read_record (match_header header) path (parse_records fields)

unfoldable pub parse_raw_diff : Bytes → Parsed
unfolding parse_records split_bytes
parse_raw_diff raw =
    let fields = split_bytes 0 (drop_last raw) in
    if raw == []
    then parsed []
    else if not (ends_in 0 raw)
    then parse_error "malformed_diff"
    else if not (length fields % 2 == 0)
    then parse_error "malformed_diff"
    else parse_records fields
