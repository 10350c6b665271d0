-- ===== src/Payloads/Found.antt =====
-- What the readers find in a payload of whole items.
use i.Prelude.{
  ℕ, ◌+◌, ◌-◌, ◌^◌, ◌<◌, ◌≡◌, refl, sym, ap, ◌∙◌, Bytes, List, [], ◌∷◌, ◌++◌, append-nil, Bool,
  true, false, ◌==◌, ◌||◌, All, length, take, take-all, le→ltb_false, ltb, arith, if◌then◌else◌,
}
use i.Errors.{Result, ok, err}
use i.Binary.{put_u16, put_u32, be-put_u32, slice, uint32_at, slice_ok, uint32_at_ok}
use i.Wire.Walk.{Item, IsItem, encode, Turn, next, done, visit, scan-encode}
use i.Payloads.{sqlca_round, payload_has_sqlca, lob_data_of, lob_data_round, parse_lob_data}

-- Whether an item has the code point.
abbrev pub has_point : ℕ → List Item → Bool
has_point code_point [] = false
has_point code_point ((c, payload) ∷ items) = (c == code_point) || has_point code_point items

visit-sqlca :
    (items : List Item)
    → visit 1 (λ e. false) (λ s. false) sqlca_round items tt ≡ has_point 0x3807 items
visit-sqlca [] = refl
visit-sqlca ((c, payload) ∷ items) = either (c == 0x3807) (visit-sqlca items)
  where
    either :
        (t : Bool)
        → visit 1 (λ e. false) (λ s. false) sqlca_round items tt ≡ has_point 0x3807 items
        → ◌≡◌ {A = Bool}
            (elim (if◌then◌else◌ {A = Turn (Unit {0}) Bool} t (done true) (next tt)) [
              | next s' ↦ visit 1 (λ e. false) (λ s. false) sqlca_round items s'
              | done r ↦ r
            ])
            (t || has_point 0x3807 items)
    either true later = refl
    either false later = later

-- On a payload of whole items, payloadHasSQLCA says whether one of them has the code point of an SQLCA.
pub payload_has_sqlca-encode :
    (items : List Item)
    → All IsItem items
    → payload_has_sqlca (encode items) ≡ has_point 0x3807 items
unfolding payload_has_sqlca
payload_has_sqlca-encode items h =
    ap (λ d. payload_has_sqlca d) (sym (append-nil (encode items)))
    ∙ scan-encode 1 (λ e. false) (λ s. false) sqlca_round items [] tt (omega arith) (omega arith)
        (omega arith) h
    ∙ visit-sqlca items

-- A LOB item as the host writes it: a word, the size, and the content.
abbrev pub lob_item : ℕ → Bytes → Item
lob_item ccsid content = (0x380F, put_u16 ccsid ++ (put_u32 (length content) ++ content))

lob_data_of-item :
    (ccsid : ℕ) (content : Bytes)
    → length content < 2 ^ 32
    → lob_data_of (lob_item ccsid content).1 ≡ ok content
lob_data_of-item ccsid content h =
    let p : Bytes = (lob_item ccsid content).1 in
    let long : ltb (length p) 6 ≡ false = le→ltb_false (length p) 6 (omega arith) in
    let size : uint32_at 2 p ≡ ok (length content) =
      uint32_at_ok 2 p (omega arith) ∙ ap ok (be-put_u32 (length content) h) in
    let whole : ltb (length p - 6) (length content) ≡ false =
      le→ltb_false (length p - 6) (length content) (omega arith) in
    let cut : 6 + length content - 6 ≡ length content = omega arith in
    let part : slice 6 (6 + length content) p ≡ ok content =
      slice_ok 6 (6 + length content) p (omega arith) (omega arith)
      ∙ ap (λ n. ok (take n content)) cut
      ∙ ap ok (take-all (length content) content (omega arith)) in
    rw (long, size, whole) part

visit-lob :
    (before : List Item) (ccsid : ℕ) (content : Bytes) (after : List Item)
    → has_point 0x380F before ≡ false
    → length content < 2 ^ 32
    → visit 1 (λ e. err e) (λ s. ok []) lob_data_round (before ++ lob_item ccsid content ∷ after) tt
      ≡ ok content
visit-lob [] ccsid content after n h = lob_data_of-item ccsid content h
visit-lob ((c, payload) ∷ before) ccsid content after n h =
    either (c == 0x380F) n (λ free. visit-lob before ccsid content after free h)
  where
    either :
        (t : Bool)
        → (t || has_point 0x380F before) ≡ false
        → (has_point 0x380F before ≡ false
            → visit 1
                (λ e. err e)
                (λ s. ok [])
                lob_data_round
                (before ++ lob_item ccsid content ∷ after)
                tt
              ≡ ok content)
        → ◌≡◌ {A = Result Bytes}
            (elim (if◌then◌else◌ {A = Turn (Unit {0}) (Result Bytes)} t
              (done (lob_data_of payload))
              (next tt)) [
                | next s' ↦
                    visit 1
                      (λ e. err e)
                      (λ s. ok [])
                      lob_data_round
                      (before ++ lob_item ccsid content ∷ after)
                      s'
                | done r ↦ r
              ])
            (ok content)
    either true e later = cc
    either false e later = later e

-- In a payload of whole items, the data of the first LOB item are read back, whatever items are before and
-- behind it.
pub parse_lob_data-encode :
    (before : List Item) (ccsid : ℕ) (content : Bytes) (after : List Item)
    → has_point 0x380F before ≡ false
    → length content < 2 ^ 32
    → All IsItem (before ++ lob_item ccsid content ∷ after)
    → parse_lob_data (encode (before ++ lob_item ccsid content ∷ after)) ≡ ok content
unfolding parse_lob_data
parse_lob_data-encode before ccsid content after n h w =
    ap (λ d. parse_lob_data d)
      (sym (append-nil (encode (before ++ lob_item ccsid content ∷ after))))
    ∙ scan-encode 1 (λ e. err e) (λ s. ok []) lob_data_round
        (before ++ lob_item ccsid content ∷ after) [] tt (omega arith) (omega arith) (omega arith) w
    ∙ visit-lob before ccsid content after n h
