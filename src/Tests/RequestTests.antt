-- ===== src/Tests/RequestTests.antt =====
-- The build functions at concrete calls, with a codec for the digits and the capitals of CCSID 37.
use i.Prelude.{◌+◌, ◌≡◌, refl, Bytes, [], ◌∷◌, ◌++◌, some, map, ltb, if◌then◌else◌, arith, negsuc}
use i.Errors.{ok}
use i.Text.{codes}
use i.Wire.{read_packet, parse_header}
use i.Wire.{build_header}
use i.Request.Build
use i.Request.Attributes.{
  Codec, append_name_attribute, append_request_template, append_byte_attribute,
  append_int_attribute, append_short_attribute, append_short_int_attribute,
}
use i.Request.Statements.{finish_request, classify_sql_statement, select, call}
use i.Request.Calls.{fetch, build}
use i.Request.Framed.{Framed}
use i.Request.Built.{build-Framed}
use i.Request.Read.{build-read, request_header}

-- Upper-case letters up to I and digits of CCSID 37; the statement text as it is.
abbrev codec : Codec
codec = record {
  encode_ebcdic37 = λ name. some (map (λ c. if ltb c 58 then c + 192 else c + 128) name);
  encode_text = λ text ccsid. some text;
}

classify_with : classify_sql_statement (codes " ((with t as (values 1)) select") ≡ select
unfolding classify_sql_statement
classify_with = refl

classify_call : classify_sql_statement (codes "call p(?)") ≡ call
unfolding classify_sql_statement
classify_call = refl

-- Two rows back: the scroll option is the long one, with the offset as an unsigned word.
abbrev fetch_request : Bytes
fetch_request =
    0 ∷ 0 ∷ 0 ∷ 81 ∷ 0 ∷ 0 ∷ 224 ∷ 4 ∷ 0 ∷ 0 ∷ 0 ∷ 0 ∷ 0 ∷ 0 ∷ 0 ∷ 0 ∷ 0 ∷ 20 ∷ 24 ∷ 11 ∷ 132 ∷ 0
    ∷ 0 ∷ 0 ∷ 0 ∷ 0 ∷ 0 ∷ 0 ∷ 0 ∷ 1 ∷ 0 ∷ 1 ∷ 0 ∷ 0 ∷ 0 ∷ 3 ∷ 0 ∷ 0 ∷ 0 ∷ 4 ∷ 0 ∷ 0 ∷ 0 ∷ 12 ∷ 56
    ∷ 11 ∷ 0 ∷ 37 ∷ 0 ∷ 2 ∷ 195 ∷ 243 ∷ 0 ∷ 0 ∷ 0 ∷ 12 ∷ 56 ∷ 14 ∷ 0 ∷ 8 ∷ 255 ∷ 255 ∷ 255 ∷ 254 ∷ 0
    ∷ 0 ∷ 0 ∷ 7 ∷ 56 ∷ 51 ∷ 232 ∷ 0 ∷ 0 ∷ 0 ∷ 10 ∷ 56 ∷ 52 ∷ 0 ∷ 0 ∷ 128 ∷ 0 ∷ []

fetch_run : build codec (fetch 3 (codes "C3") 32768 8 (negsuc 1)) ≡ ok fetch_request
unfolding build Build.build_fetch_request_for_statement append_name_attribute finish_request
    append_request_template build_header append_byte_attribute append_int_attribute
    append_short_attribute append_short_int_attribute Build.scroll_option
fetch_run = refl

build-Framed_example : Framed 0x180B 3 fetch_request
build-Framed_example = build-Framed codec (fetch 3 (codes "C3") 32768 8 (negsuc 1)) fetch_run

build-read_example :
    (read_packet (fetch_request ++ (9 ∷ [])) ≡ ok (fetch_request, 9 ∷ []))
    × (parse_header fetch_request ≡ ok (request_header 0x180B fetch_request))
build-read_example =
    build-read codec (fetch 3 (codes "C3") 32768 8 (negsuc 1)) (9 ∷ []) fetch_run (omega arith)
