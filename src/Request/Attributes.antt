-- ===== src/Request/Attributes.antt =====
-- The attributes of a request body. A body is built up with the number of its attributes.
use i.Prelude.{
  ℕ, ◌+◌, ◌-◌, ◌%◌, ◌^◌, Bytes, [], ◌∷◌, ◌++◌, ℤ, pos, negsuc, Option, none, some, length, Bool,
  true, false,
}
use i.Binary.{put_u16, put_u32}

-- What the driver takes from the CCSID codecs: the encodings of names and of statement texts.
pub record Codec : Type 0 where
  pub encode_ebcdic37 : Bytes → Option Bytes
  pub encode_text : Bytes → ℕ → Option Bytes

-- `uint32(v)` of a Go int.
abbrev pub to_uint32 : ℤ → ℕ
to_uint32 (pos n) = n % 2 ^ 32
to_uint32 (negsuc n) = 2 ^ 32 - 1 - n % 2 ^ 32

unfoldable pub append_request_template : Bytes → ℕ → ℕ → ℕ → ℕ → Bytes
append_request_template dst bitmap rpb_handle pm_handle parm_count =
    dst
    ++ (put_u32 bitmap
        ++ put_u32 0
        ++ put_u16 1
        ++ put_u16 1
        ++ put_u16 0
        ++ put_u16 rpb_handle
        ++ put_u16 pm_handle
        ++ put_u16 parm_count)

unfoldable pub append_name_attribute : Codec → ℕ → Bytes → Option Bytes
append_name_attribute codec code_point name = elim (codec.encode_ebcdic37 name) [
  | none ↦ none
  | some encoded ↦ some (
      put_u32 (10 + length encoded)
      ++ (put_u16 code_point ++ (put_u16 37 ++ (put_u16 (length encoded) ++ encoded))))
]

unfoldable pub append_byte_attribute : Bytes → ℕ → ℕ → Bytes
append_byte_attribute dst code_point value =
    dst ++ (put_u32 7 ++ (put_u16 code_point ++ (value ∷ [])))

unfoldable pub append_short_attribute : Bytes → ℕ → ℕ → Bytes
append_short_attribute dst code_point value =
    dst ++ (put_u32 8 ++ (put_u16 code_point ++ put_u16 value))

unfoldable pub append_int_attribute : Bytes → ℕ → ℕ → Bytes
append_int_attribute dst code_point value =
    dst ++ (put_u32 10 ++ (put_u16 code_point ++ put_u32 value))

unfoldable pub append_short_int_attribute : Bytes → ℕ → ℕ → ℕ → Bytes
append_short_int_attribute dst code_point value relative =
    dst ++ (put_u32 12 ++ (put_u16 code_point ++ (put_u16 value ++ put_u32 relative)))

unfoldable pub append_raw_attribute : Bytes → ℕ → Bytes → Bytes
append_raw_attribute dst code_point value =
    dst ++ (put_u32 (6 + length value) ++ (put_u16 code_point ++ value))

unfoldable pub append_extended_sql_text_attribute : Codec → Bytes → ℕ → Option Bytes
append_extended_sql_text_attribute codec query ccsid = elim (codec.encode_text query ccsid) [
  | none ↦ none
  | some encoded ↦ some (
      put_u32 (12 + length encoded)
      ++ (put_u16 0x3831 ++ (put_u16 ccsid ++ (put_u32 (length encoded) ++ encoded))))
]

-- The package of an extended dynamic statement, `*packageSpec`.
pub record PackageSpec : Type 0 where
  pub name : Bytes
  pub library : Bytes
  pub packaged : Bool

-- The variables `body` and `parms` of the build functions.
pub record Body : Type 0 where
  pub bytes : Bytes
  pub parms : ℕ

abbrev pub no_body : Body
no_body = record { bytes = []; parms = 0 }

-- `body = append…Attribute(body, …); parms++`.
abbrev pub byte_attribute : ℕ → ℕ → Body → Body
byte_attribute code_point value b = record {
  bytes = append_byte_attribute b.bytes code_point value;
  parms = b.parms + 1;
}

abbrev pub short_attribute : ℕ → ℕ → Body → Body
short_attribute code_point value b = record {
  bytes = append_short_attribute b.bytes code_point value;
  parms = b.parms + 1;
}

abbrev pub int_attribute : ℕ → ℕ → Body → Body
int_attribute code_point value b = record {
  bytes = append_int_attribute b.bytes code_point value;
  parms = b.parms + 1;
}

abbrev pub raw_attribute : ℕ → Bytes → Body → Body
raw_attribute code_point value b = record {
  bytes = append_raw_attribute b.bytes code_point value;
  parms = b.parms + 1;
}

-- `body = append(body, attr...); parms++`.
abbrev pub attribute : Bytes → Body → Body
attribute attr b = record { bytes = b.bytes ++ attr; parms = b.parms + 1 }

-- A name attribute that is left out where its name cannot be encoded.
abbrev pub name_if_encoded : Option Bytes → Body → Body
name_if_encoded none b = b
name_if_encoded (some attr) b = attribute attr b

module _ (codec : Codec) where
  unfoldable pub append_prepare_attributes : Option PackageSpec → Body → Body
  append_prepare_attributes none b = b
  append_prepare_attributes (some s) b = elim s.packaged [
    | true ↦ name_if_encoded (append_name_attribute codec 0x3804 s.name) (byte_attribute 0x3808 1 b)
    | false ↦ raw_attribute 0x3804 [] (byte_attribute 0x3808 0 b)
  ]

  unfoldable pub append_execute_attributes : Option PackageSpec → Body → Body
  append_execute_attributes none b = b
  append_execute_attributes (some s) b = elim s.packaged [
    | true ↦ name_if_encoded (append_name_attribute codec 0x3804 s.name) b
    | false ↦ b
  ]

  unfoldable pub append_library_attributes : Option PackageSpec → Body → Body
  append_library_attributes none b = b
  append_library_attributes (some s) b =
      name_if_encoded (append_name_attribute codec 0x3801 s.library) b
