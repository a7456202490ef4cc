-- ===== src/ChangePlan/Diff.antt =====
-- `_parse_raw_diff` against the format it reads.
use aros_toolchains.Prelude.{
  ℕ, ◌*◌, ◌%◌, Bool, true, false, not, if◌then◌else◌, List, [], ◌∷◌, ◌++◌, Option, none, some, ◌==◌,
  nat_eq, list_eq, contains, contains-append, map, length, all, ◌≡◌, ◌≢◌, refl, arith, sym, ap, ◌∙◌,
  All,
}
use aros_toolchains.ChangePlan.Records.{
  parsed, parse_error, Bytes, Header, Change, Parsed, parsed, parse_error, match_header,
  is_rename_or_copy, read_record, parse_records, parse_raw_diff, split_bytes, drop_last, ends_in,
  is_octal, is_hex_byte, is_status, is_decimal,
}
use aros_toolchains.ChangePlan.RawHeader.{
  write_header, IsHeader, match_header-write_header, match_header_sound,
}
use aros_toolchains.ChangePlan.Fields.{
  close_fields, close_fields-split_bytes, no_zero-split_bytes, ends_in-close_fields,
  split_bytes-close_fields,
}

-- One record of the raw format of `git diff -z`.
pub record Entry : Type 0 where
  pub header : Header
  pub path : Bytes

pub record IsEntry (e : Entry) : Type 0 where
  pub header_form : IsHeader e.header
  pub path_given : (e.path == []) ≡ false
  pub path_closed : contains e.path 0 ≡ false
  pub one_path : is_rename_or_copy e.header.status ≡ false

abbrev pub fields_of : List Entry → List Bytes
fields_of [] = []
fields_of (e ∷ es) = write_header e.header ∷ e.path ∷ fields_of es

-- What Git prints for these entries.
abbrev pub render : List Entry → Bytes
render es = close_fields (fields_of es)

abbrev pub change_of : Entry → Change
change_of e = record {
  old_mode = e.header.old_mode;
  new_mode = e.header.new_mode;
  status = e.header.status;
  path = e.path;
}

class-no_zero :
    (p : ℕ → Bool) → p 0 ≡ false → (xs : Bytes) → all p xs ≡ true → contains xs 0 ≡ false
class-no_zero p h [] k = refl
class-no_zero p h (x ∷ xs) k = ground (arith, class-no_zero p h xs)

status-no_zero : (s : Bytes) → is_status s ≡ true → contains s 0 ≡ false
status-no_zero [] h = refl
status-no_zero (b ∷ bs) h = ground (arith, class-no_zero is_decimal refl bs)

append-no_zero :
    (xs ys : Bytes)
    → contains xs 0 ≡ false
    → contains ys 0 ≡ false
    → contains (xs ++ (32 ∷ ys)) 0 ≡ false
append-no_zero xs ys h k = ground (arith, contains-append xs (32 ∷ ys) 0)

write_header-no_zero : (m : Header) → IsHeader m → contains (write_header m) 0 ≡ false
unfolding write_header nat_eq
write_header-no_zero m h = append-no_zero [] (m.old_mode ++ _) refl (
    append-no_zero m.old_mode _ (class-no_zero is_octal refl m.old_mode h.old_mode_octal) (
      append-no_zero m.new_mode _ (class-no_zero is_octal refl m.new_mode h.new_mode_octal) (
        append-no_zero m.old_oid _ (class-no_zero is_hex_byte refl m.old_oid h.old_oid_hex) (
          append-no_zero m.new_oid m.status (class-no_zero is_hex_byte refl m.new_oid h.new_oid_hex)
            (status-no_zero m.status h.status_form)))))

fields_of-no_zero :
    (es : List Entry) → All IsEntry es → All (λ f. contains f 0 ≡ false) (fields_of es)
fields_of-no_zero [] h = tt
fields_of-no_zero (e ∷ es) h =
    (write_header-no_zero e.header h.0.header_form, (h.0.path_closed, fields_of-no_zero es h.1))

parse_records-fields_of :
    (es : List Entry) → All IsEntry es → parse_records (fields_of es) ≡ parsed (map change_of es)
unfolding parse_records
parse_records-fields_of [] h = refl
parse_records-fields_of (e ∷ es) h =
    rw
      (
        match_header-write_header e.header h.0.header_form,
        h.0.path_given,
        h.0.one_path,
        parse_records-fields_of es h.1,
      )
      refl

-- An accepted pair of fields.
record_cases :
    (path : Bytes) (m : Option Header) (rest : Parsed) (cs : List Change)
    → read_record m path rest ≡ parsed cs
    → (h : Header) × (m ≡ some h)
      × ((path == []) ≡ false)
      × (is_rename_or_copy h.status ≡ false)
      × (ds : List Change) × (rest ≡ parsed ds)
      × (cs ≡ change_of (record { header = h; path = path }) ∷ ds)
record_cases path none rest cs h = cc
record_cases path (some m) (parse_error r) cs h = absurd (ground arith)
record_cases path (some m) (parsed ds) cs h =
    (m, refl, ground arith, ground arith, ds, refl, ground arith)

fields_same :
    (f path : Bytes) (fs : List Bytes) (m : Header) (es : List Entry)
    → f ≡ write_header m
    → fs ≡ fields_of es
    → f ∷ path ∷ fs ≡ fields_of (record { header = m; path = path } ∷ es)
fields_same f path fs m es p q i = p i ∷ path ∷ q i

-- What the loop accepted is a list of entries.
pub record IsRead (fs : List Bytes) (cs : List Change) : Type 0 where
  pub entries : List Entry
  pub good : All IsEntry entries
  pub fields : fs ≡ fields_of entries
  pub changes : cs ≡ map change_of entries

parse_records-IsRead :
    (fs : List Bytes) (cs : List Change)
    → All (λ f. contains f 0 ≡ false) fs
    → parse_records fs ≡ parsed cs
    → IsRead fs cs
unfolding parse_records
parse_records-IsRead [] cs z h = record {
  entries = [];
  good = tt;
  fields = refl;
  changes = ground arith;
}
parse_records-IsRead (f ∷ []) cs z h = cc
parse_records-IsRead (f ∷ path ∷ fs) cs z h =
    let (m, found, given, single, ds, more, whole) =
      record_cases path (match_header f) (parse_records fs) cs h in
    let r = parse_records-IsRead fs ds z.1.1 more in
    let form = match_header_sound f m found in
    record {
      entries = record { header = m; path = path } ∷ r.entries;
      good = (
        record { header_form = form.0; path_given = given; path_closed = z.1.0; one_path = single },
        r.good,
      );
      fields = fields_same f path fs m r.entries form.1 r.fields;
      changes = whole ∙ ap (λ t. change_of (record { header = m; path = path }) ∷ t) r.changes;
    }

length-fields_of : (es : List Entry) → length (fields_of es) ≡ 2 * length es
length-fields_of [] = refl
length-fields_of (e ∷ es) = omega (arith, length-fields_of es)

even_test : (m n : ℕ) → m ≡ 2 * n → (m % 2 == 0) ≡ true
even_test m n h = ground arith

parse_nonempty :
    (raw : Bytes)
    → (raw == []) ≡ false
    → ends_in 0 raw ≡ true
    → (length (split_bytes 0 (drop_last raw)) % 2 == 0) ≡ true
    → parse_raw_diff raw ≡ parse_records (split_bytes 0 (drop_last raw))
unfolding parse_raw_diff
parse_nonempty raw h k e = rw (h, k, e) refl

parsed_injective : {cs ds : List Change} → parsed cs ≡ parsed ds → cs ≡ ds
parsed_injective h = cc

parse_empty : parse_raw_diff (render []) ≡ parsed []
unfolding parse_raw_diff close_fields list_eq
parse_empty = refl

not_nil : (raw : Bytes) → raw ≢ [] → (raw == []) ≡ false
not_nil raw h = ground arith

write_header_nonempty :
    (e : Entry) (fs : List Bytes) → close_fields (write_header e.header ∷ e.path ∷ fs) ≢ []
unfolding close_fields write_header
write_header_nonempty e fs = λ h. cc

read_under :
    (empty closed even : Bool) (p : Parsed) (cs : List Change)
    → empty ≡ false
    → (if empty
        then parsed []
        else if not closed
        then parse_error "malformed_diff"
        else if not even
        then parse_error "malformed_diff"
        else p)
      ≡ parsed cs
    → (closed ≡ true) × (p ≡ parsed cs)
read_under true closed even p cs e h = cc
read_under false false even p cs e h = cc
read_under false true false p cs e h = cc
read_under false true true p cs e h = (refl, h)

parse_cases :
    (b : ℕ) (bs : Bytes) (cs : List Change)
    → parse_raw_diff (b ∷ bs) ≡ parsed cs
    → (ends_in 0 (b ∷ bs) ≡ true) × (parse_records (split_bytes 0 (drop_last (b ∷ bs))) ≡ parsed cs)
unfolding parse_raw_diff
parse_cases b bs cs h =
    read_under (b ∷ bs == []) (ends_in 0 (b ∷ bs))
      (length (split_bytes 0 (drop_last (b ∷ bs))) % 2 == 0)
      (parse_records (split_bytes 0 (drop_last (b ∷ bs)))) cs (not_nil (b ∷ bs) (λ e. cc)) h

-- The raw diff of any entries that have well-formed headers, one nonempty path without a zero byte
-- and no rename or copy status is read as their changes, in order.
pub parse_raw_diff-render :
    (es : List Entry) → All IsEntry es → parse_raw_diff (render es) ≡ parsed (map change_of es)
unfolding parse_raw_diff
parse_raw_diff-render [] h = parse_empty
parse_raw_diff-render (e ∷ es) h =
    let z = fields_of-no_zero (e ∷ es) h in
    let back = split_bytes-close_fields (write_header e.header) (e.path ∷ fields_of es) z in
    parse_nonempty (render (e ∷ es))
      (not_nil (render (e ∷ es)) (write_header_nonempty e (fields_of es)))
      (ends_in-close_fields (write_header e.header) (e.path ∷ fields_of es))
      (ap (λ fs. length fs % 2 == 0) back
        ∙ even_test _ (length (e ∷ es)) (length-fields_of (e ∷ es)))
    ∙ (ap parse_records back ∙ parse_records-fields_of (e ∷ es) h)

-- Every text that is read without an error is the raw diff of such entries, and the changes that
-- were read are theirs, in order.
pub parse_raw_diff_sound :
    (raw : Bytes) (cs : List Change)
    → parse_raw_diff raw ≡ parsed cs
    → (es : List Entry) × All IsEntry es × (raw ≡ render es) × (cs ≡ map change_of es)
unfolding close_fields
parse_raw_diff_sound [] cs h = ([], tt, refl, parsed_injective (sym h ∙ parse_empty))
parse_raw_diff_sound (b ∷ bs) cs h =
    let c = parse_cases b bs cs h in
    let r =
      parse_records-IsRead (split_bytes 0 (drop_last (b ∷ bs))) cs (no_zero-split_bytes _) c.1 in
    (
      r.entries,
      r.good,
      sym (close_fields-split_bytes (b ∷ bs) c.0) ∙ ap close_fields r.fields,
      r.changes,
    )
