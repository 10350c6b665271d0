-- ===== src/Request/Framed.antt =====
-- What it means that a request is framed, and how each step of a build function keeps it: the header
-- names the length and the function, the template the statement, the descriptor and the number of items that follow.
use i.Prelude.{
  ℕ, ◌+◌, ◌-◌, ◌%◌, ◌^◌, ◌<◌, ◌≡◌, refl, ap, ◌∙◌, Bytes, List, [], ◌++◌, Option, none, some, ℤ,
  Bool, true, false, ◌||◌, ◌==◌, All, length, length-append, take, take-append, arith,
  if◌then◌else◌, take, ◌<◌, ◌+◌,
}
use i.Errors.{Result, ok, err, ◌>>=◌, encoded}
use i.Binary.{put_u16, put_u32}
use i.Wire.{build_header, append_llcp}
use i.Wire.Walk.{Item, encode}
use i.Request.Attributes.{
  Codec, Body, append_request_template, append_name_attribute, append_extended_sql_text_attribute,
  append_short_attribute, append_short_int_attribute, attribute, short_attribute, to_uint32,
}
use i.Request.Framing.{
  HasPoint, IsBody, attribute-IsBody, short_attribute-IsBody, name_attribute-IsBody,
  text_attribute-IsBody,
}
use i.Request.Statements.{finish_request}
use i.Request.Build

pub record FramedFor (function handle descriptor : ℕ) (request : Bytes) : Type 0 where
  pub bitmap : ℕ
  pub items : List Item
  pub points : All HasPoint items
  pub frame :
      request
      ≡ build_header (length request % 2 ^ 32) 0 0xE004 20 function
        ++ (append_request_template [] bitmap handle descriptor (length items) ++ encode items)

-- A request that names no descriptor.
abbrev pub Framed : ℕ → ℕ → Bytes → Type 0
Framed function handle request = FramedFor function handle 0 request

-- What is said of a request that is built.
abbrev pub Ensures : ℕ → ℕ → ℕ → Result Bytes → Type 0
Ensures function handle descriptor (ok request) = FramedFor function handle descriptor request
Ensures function handle descriptor (err e) = Unit

pub finish_request-Framed :
    (function bitmap handle descriptor : ℕ) {b : Body}
    → IsBody b
    → FramedFor function handle descriptor (finish_request function bitmap handle descriptor b)
unfolding finish_request append_request_template build_header
finish_request-Framed function bitmap handle descriptor {b} h = record {
  bitmap = bitmap;
  items = h.items;
  points = h.points;
  frame =
      let size : (40 + length b.bytes) % 2 ^ 32
          ≡ length (finish_request function bitmap handle descriptor b) % 2 ^ 32 =
        omega arith in
      λ i.
        build_header (size i) 0 0xE004 20 function
        ++ (append_request_template [] bitmap handle descriptor (h.counts i) ++ h.spells i);
}

encoded-Ensures :
    (function handle descriptor : ℕ) (o : Option Bytes) (f : Bytes → Result Bytes)
    → ((attr : Bytes) → o ≡ some attr → Ensures function handle descriptor (f attr))
    → Ensures function handle descriptor (encoded o >>= f)
encoded-Ensures function handle descriptor none f h = tt
encoded-Ensures function handle descriptor (some attr) f h = h attr refl

take_back : (xs ys : Bytes) → take (length (xs ++ ys) - length ys) (xs ++ ys) ≡ xs
take_back xs ys =
    let n : length (xs ++ ys) - length ys ≡ length xs = omega (arith, length-append {0} xs ys) in
    rw (n, take-append xs ys)

short_int_llcp :
    (c v r : ℕ)
    → put_u32 12 ++ (put_u16 c ++ (put_u16 v ++ put_u32 r))
      ≡ append_llcp [] c (put_u16 v ++ put_u32 r)
unfolding append_llcp
short_int_llcp c v r = refl

-- The long scroll option takes the place of the short one.
long_option-IsBody :
    (option : ℕ) (relative : ℤ) {b : Body}
    → IsBody b
    → IsBody (record {
      bytes =
          append_short_int_attribute
            (take
              (length (append_short_attribute b.bytes 0x380E option) - 8)
              (append_short_attribute b.bytes 0x380E option))
            0x380E
            option
            (to_uint32 relative);
      parms = b.parms + 1;
    })
unfolding append_short_attribute append_short_int_attribute
long_option-IsBody option relative {b} h =
    let payload : Bytes = put_u16 option ++ put_u32 (to_uint32 relative) in
    let item : Bytes = put_u32 12 ++ (put_u16 0x380E ++ payload) in
    let whole =
      attribute-IsBody 0x380E payload item (omega arith)
        (short_int_llcp 0x380E option (to_uint32 relative)) h in
    record {
      items = whole.items;
      spells =
          ap (λ d. d ++ item) (take_back b.bytes (put_u32 8 ++ (put_u16 0x380E ++ put_u16 option)))
          ∙ whole.spells;
      counts = whole.counts;
      points = whole.points;
    }

pub scroll_option-IsBody :
    (option : ℕ) (relative : ℤ) {b : Body} (codec : Codec)
    → IsBody b
    → IsBody (Build.scroll_option codec option relative b)
unfolding Build.scroll_option
scroll_option-IsBody option relative {b} codec h = either (option == 7 || option == 8)
  where
    either :
        (long : Bool)
        → IsBody (
            if long
            then record {
              bytes =
                  append_short_int_attribute
                    (take
                      (length (append_short_attribute b.bytes 0x380E option) - 8)
                      (append_short_attribute b.bytes 0x380E option))
                    0x380E
                    option
                    (to_uint32 relative);
              parms = b.parms + 1;
            }
            else short_attribute 0x380E option b)
    either true = long_option-IsBody option relative h
    either false = short_attribute-IsBody h 0x380E option (omega arith)

module _ (codec : Codec) where
  pub named :
      (function handle descriptor c : ℕ) (name : Bytes) (b : Body) (f : Bytes → Result Bytes)
      → c < 2 ^ 16
      → IsBody b
      → ((attr : Bytes) → IsBody (attribute attr b) → Ensures function handle descriptor (f attr))
      → Ensures function handle descriptor (encoded (append_name_attribute codec c name) >>= f)
  named function handle descriptor c name b f p h k =
      encoded-Ensures function handle descriptor (append_name_attribute codec c name) f
        (λ attr e. k attr (name_attribute-IsBody h codec c name p e))

  pub texted :
      (function handle descriptor : ℕ) (query : Bytes) (ccsid : ℕ) (b : Body)
      (f : Bytes → Result Bytes)
      → IsBody b
      → ((attr : Bytes) → IsBody (attribute attr b) → Ensures function handle descriptor (f attr))
      → Ensures function handle descriptor
          (encoded (append_extended_sql_text_attribute codec query ccsid) >>= f)
  texted function handle descriptor query ccsid b f h k =
      encoded-Ensures function handle descriptor
        (append_extended_sql_text_attribute codec query ccsid) f
        (λ attr e. k attr (text_attribute-IsBody h codec query ccsid e))
