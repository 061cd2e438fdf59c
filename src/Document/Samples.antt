-- ===== src/Document/Samples.antt =====
-- model/document/: a small record, tests on it, and the theorems at it.
use snapshot_engine.Shared.{◌≡◌, refl, true, ◌∷◌, codes, arith, bytes_comparable}
use snapshot_engine.Merge.Node.{
  Node, null, number, text, array, object, nil, cons, last, field, sort_fields, insert_field,
}
use snapshot_engine.Document.Outcome.{ok, emit, space}
use snapshot_engine.Document.Text.{rune_size, valid_from, decode_rune, encode_rune}
use snapshot_engine.Document.Quoted.{
  str, str_loop, escape, quoted_len, byte_len, escaped, string_end, append_string, hex4, hex_value,
}
use snapshot_engine.Document.Decimal.{
  int_part, frac_part, exp_part, digits, decimal_of, text_len, decimal_text, scan_number,
  number_text,
}
use snapshot_engine.Document.Json.{quoted, literal, has_twice, close_object, value, parse, encode}
use snapshot_engine.Document.Record.{format, is_canonical, check, encode_record, decode_record}
use snapshot_engine.Document.RoundTrip.{parse-encode, decode_record-encode_record, decode_record-eq}

-- {"a":[1.5,null],"b":"x"}
abbrev sample : Node
sample = object (
    field (codes "a") (array (cons (number (codes "1.5")) (cons null nil)))
      (field (codes "b") (text (codes "x")) last))

sample_text : encode sample ≡ codes "{\"a\":[1.5,null],\"b\":\"x\"}"
unfolding encode append_string string_end escaped
sample_text = refl

-- Space, fields out of order, an exponent and an escape.
sample_parsed : parse (codes " {\"b\" : \"\\u0078\", \"a\": [15e-1 ,null]}") ≡ ok sample
unfolding parse space valid_from rune_size value emit quoted str str_loop escape hex4 hex_value
    decode_rune encode_rune quoted_len byte_len number_text scan_number int_part frac_part exp_part
    digits decimal_of text_len decimal_text literal close_object has_twice sort_fields insert_field
sample_parsed = refl

sample_checked : check sample 0 ≡ true
unfolding check is_canonical parse space valid_from rune_size value emit number_text scan_number
    int_part frac_part exp_part digits decimal_of text_len decimal_text
sample_checked = refl

parse-encode_example : parse (encode sample) ≡ ok sample
unfolding encode append_string string_end escaped
parse-encode_example = parse-encode sample sample_checked (omega arith)

sample_record : encode_record sample ≡ ok (format ∷ encode sample)
unfolding encode_record check is_canonical parse space valid_from rune_size value emit number_text
    scan_number int_part frac_part exp_part digits decimal_of text_len decimal_text encode
    append_string string_end escaped
sample_record = refl

decode_record-encode_record_example : decode_record (format ∷ encode sample) ≡ ok sample
decode_record-encode_record_example =
    decode_record-encode_record sample (format ∷ encode sample) sample_record

decode_record-eq_example : format ∷ encode sample ≡ format ∷ encode sample
decode_record-eq_example =
    decode_record-eq (format ∷ encode sample) sample
      (decode_record-encode_record sample (format ∷ encode sample) sample_record)
