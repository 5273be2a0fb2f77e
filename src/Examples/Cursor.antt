-- ===== src/Examples/Cursor.antt =====
-- A cursor after one row.
use mikura.Common.{
  ◌^◌, ◌<◌, ◌≡◌, refl, arith, false, not, none, some, [], ◌∷◌, length, ok, err, if◌then◌else◌, All,
}
use mikura.Common.Text.{ascii, is_utf8, str_eq, sort}
use mikura.Common.Words.{IsByte}
use mikura.Acl.{allow_all}
use mikura.Acl.Sorted.{denied_sorted, hide_kinds_sorted, hide_identities_sorted, row_filters_sorted}
use mikura.Request.{EvaluateRequest, Aggregate, eq}
use mikura.Cursor.{Stamp, encode_cursor, decode_cursor, same_stamp}
use mikura.Cursor.Fingerprint.{
  query_fingerprint, write_acl, write_predicate, write_sort, write_str, write_opt_predicate,
}
use mikura.Cursor.Hex.{hex_encode, hex_decode, hex_decode-hex_encode}
use mikura.Cursor.Fingerprint.PredicateCodes.{WidePredicate}
use mikura.Cursor.Fingerprint.Queries.{WideQuery}
use mikura.Cursor.RoundTrip.{IsWide, IsStamp, Outcome, decode_cursor-encode_cursor}
use mikura.Errors.{cursor_stale, cursor_mismatch}

abbrev query : EvaluateRequest
query = record {
  namespace = ascii "ns";
  root_kind = ascii "Order";
  hops = [];
  sum_kind = ascii "Order";
  sum_property = ascii "amount";
  aggregate = Aggregate.count_and_sum;
  acl = allow_all;
  filter = none;
  predicate = some (eq (ascii "status") (ascii "open"));
  object_bound = 10;
  sort = some (record { property = ascii "status"; descending = false; nearest = none });
  then_by = [];
  page_size = 1;
  cursor = none;
  breakdown = none;
}

abbrev head : Stamp
head = record { committed = 3; written = 3; used = 0 }

fingerprint-IsByte : All IsByte (query_fingerprint query)
unfolding query_fingerprint write_acl write_predicate write_opt_predicate write_str write_sort
    denied_sorted hide_kinds_sorted hide_identities_sorted row_filters_sorted sort
fingerprint-IsByte = omega arith

fingerprint_short : length (query_fingerprint query) < 2 ^ 32
unfolding query_fingerprint write_acl write_predicate write_opt_predicate write_str write_sort
    denied_sorted hide_kinds_sorted hide_identities_sorted row_filters_sorted sort
fingerprint_short = omega arith

IsWide-o2 : IsWide (ascii "o2")
unfolding is_utf8
IsWide-o2 = record { text = record { valid = refl }; wide = omega arith }

-- The same query under a restriction.
abbrev restricted : EvaluateRequest
restricted = record query {
  acl = record allow_all { denied = (ascii "Order", ascii "amount") ∷ [] };
}

query-WideQuery : WideQuery query
unfolding denied_sorted hide_kinds_sorted hide_identities_sorted row_filters_sorted sort
    WidePredicate
query-WideQuery = record {
  acl = record {
    denied = (omega arith, tt);
    hide_kinds = (omega arith, tt);
    hide_identities = (omega arith, tt);
    row_filters = (omega arith, tt);
  };
  namespace = omega arith;
  root_kind = omega arith;
  hops = (omega arith, tt);
  sum_kind = omega arith;
  sum_property = omega arith;
  filter = tt;
  predicate = (omega arith, omega arith);
  sort = omega arith;
  object_bound = omega arith;
  page_size = omega arith;
}

restricted-WideQuery : WideQuery restricted
unfolding denied_sorted hide_kinds_sorted hide_identities_sorted row_filters_sorted sort
    WidePredicate
restricted-WideQuery = record {
  acl = record {
    denied = (omega arith, ((omega arith, omega arith), tt));
    hide_kinds = (omega arith, tt);
    hide_identities = (omega arith, tt);
    row_filters = (omega arith, tt);
  };
  namespace = omega arith;
  root_kind = omega arith;
  hops = (omega arith, tt);
  sum_kind = omega arith;
  sum_property = omega arith;
  filter = tt;
  predicate = (omega arith, omega arith);
  sort = omega arith;
  object_bound = omega arith;
  page_size = omega arith;
}

head-IsStamp : IsStamp head
head-IsStamp = record { committed = omega arith; written = omega arith; used = omega arith }

decode_cursor-encode_cursor_example :
    (decode_cursor
        (encode_cursor query head (ascii "o2") ((false, ascii "o2") ∷ []))
        restricted
        head
      ≡ (if not (same_stamp head head)
          then err cursor_stale
          else if not (str_eq (query_fingerprint query) (query_fingerprint restricted))
          then err cursor_mismatch
          else ok (record { after_key = ascii "o2"; after = (false, ascii "o2") ∷ [] })))
    × Outcome query head
        (ascii "o2")
        ((false, ascii "o2") ∷ [])
        fingerprint-IsByte
        fingerprint_short
        head-IsStamp
        IsWide-o2
        (omega arith)
        (IsWide-o2, tt)
        restricted
        head
        (decode_cursor
          (encode_cursor query head (ascii "o2") ((false, ascii "o2") ∷ []))
          restricted
          head)
decode_cursor-encode_cursor_example =
    decode_cursor-encode_cursor query head (ascii "o2") ((false, ascii "o2") ∷ [])
      fingerprint-IsByte fingerprint_short head-IsStamp IsWide-o2 (omega arith) (IsWide-o2, tt)
      restricted head query-WideQuery restricted-WideQuery

hex_decode-hex_encode_example :
    hex_decode (hex_encode (0 ∷ 171 ∷ 255 ∷ [])) ≡ ok (0 ∷ 171 ∷ 255 ∷ [])
hex_decode-hex_encode_example = hex_decode-hex_encode (0 ∷ 171 ∷ 255 ∷ []) (omega arith)
