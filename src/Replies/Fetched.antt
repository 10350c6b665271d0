-- ===== src/Replies/Fetched.antt =====
-- A fetch from its request to the block of its reply, and the connection that the rows of a cursor are
-- given.
use i.Prelude.{
  ℕ, ◌^◌, ◌<◌, ◌≡◌, refl, sym, ap, ◌∙◌, Bytes, List, [], ◌∷◌, ◌++◌, append-nil, Bool, true, false,
  ◌||◌, ◌&&◌, ◌==◌, ◌↔◌, ◌⊎◌, inl, inr, is_pos, pos, negsuc, All, Option, none, some, ℤ, length,
  arith, if◌then◌else◌,
}
use i.Errors.{Result, ok, err, Ran}
use i.Wire.{ReplyEnvelope, has_warning, has_error}
use i.Wire.Walk.{Item, IsItem, encode, Turn, next, done, visit, scan-encode}
use i.Request.Build as Build
use i.Blocks.{
  FetchBlock, no_block, fetch_round, parse_fetch_payload, parse_result_data_payload,
  parse_original_result_data_payload,
}
use i.Blocks.Layout.{Fits, block_of}
use i.Blocks.Table.{Row, AreRows, flags_of, bytes_of, put_rows_data, parse-put_rows_data}
use i.Replies.{
  Conn, Network, fetch_operation, is_end_of_data_reply, record_warning, check_reply, with_codes,
  fetch_rows, close_cursor, close_result_set_cursor_no_reply, close_prepared_statement,
}
use i.Sqlca.{SqlWarning, returned_warning}
use i.Rows.{Connection, ResultSetMeta}

-- Whether one of the items holds result data.
abbrev pub has_result : List Item → Bool
has_result [] = false
has_result ((c, payload) ∷ items) = (c == 0x380E || c == 0x3806) || has_result items

abbrev visit_fetch : List Item → Result FetchBlock
visit_fetch items = visit 1 (λ e. err e) (λ s. ok no_block) fetch_round items tt

visit-fetch :
    (before : List Item) (payload : Bytes) (after : List Item)
    → has_result before ≡ false
    → visit_fetch (before ++ (0x380E, payload) ∷ after) ≡ parse_result_data_payload payload
visit-fetch [] payload after n = refl
visit-fetch ((c, other) ∷ before) payload after n =
    either (c == 0x380E) (c == 0x3806) n (λ free. visit-fetch before payload after free)
  where
    either :
        (t u : Bool)
        → ((t || u) || has_result before) ≡ false
        → (has_result before ≡ false
            → visit_fetch (before ++ (0x380E, payload) ∷ after) ≡ parse_result_data_payload payload)
        → ◌≡◌ {A = Result FetchBlock}
            (elim (if◌then◌else◌ {A = Turn (Unit {0}) (Result FetchBlock)} t
              (done (parse_result_data_payload other))
              (if u then done (parse_original_result_data_payload other) else next tt)) [
                | next s' ↦
                    visit 1
                      (λ e. err e)
                      (λ s. ok no_block)
                      fetch_round
                      (before ++ (0x380E, payload) ∷ after)
                      s'
                | done r ↦ r
              ])
            (parse_result_data_payload payload)
    either true u e later = cc
    either false true e later = cc
    either false false e later = later e

parse_fetch_payload-encode :
    (before : List Item) (payload : Bytes) (after : List Item)
    → has_result before ≡ false
    → All IsItem (before ++ (0x380E, payload) ∷ after)
    → parse_fetch_payload (encode (before ++ (0x380E, payload) ∷ after))
      ≡ parse_result_data_payload payload
unfolding parse_fetch_payload
parse_fetch_payload-encode before payload after n w =
    ap parse_fetch_payload (sym (append-nil (encode (before ++ (0x380E, payload) ∷ after))))
    ∙ scan-encode 1 (λ e. err e) (λ s. ok no_block) fetch_round
        (before ++ (0x380E, payload) ∷ after) [] tt (omega arith) (omega arith) (omega arith) w
    ∙ visit-fetch before payload after n

-- A block that is marked as the codes of its reply say: class 2 with code 700 closed the cursor, and with code
-- 701 the data ended. The rest is what was read.
pub record Marked (e : ReplyEnvelope) (plain b : FetchBlock) : Type 0 where
  pub read : record b { cursor_closed = false; end_of_data = false } ≡ plain
  pub closes : (b.cursor_closed ≡ true) ↔ ((e.rc_class ≡ 2) × (e.rc_code ≡ pos 700))
  pub ends : (b.end_of_data ≡ true) ↔ ((e.rc_class ≡ 2) × (e.rc_code ≡ pos 701))

-- The codes on which a fetch met the end of the data or of its cursor.
abbrev pub EndCode : ReplyEnvelope → Type 0
EndCode e =
    ((e.rc_class ≡ 2) × (e.rc_code ≡ pos 700))
    ⊎ (((e.rc_class ≡ 1) × (e.rc_code ≡ pos 100)) ⊎ ((e.rc_class ≡ 2) × (e.rc_code ≡ pos 701)))

codes_iff :
    (c of_class k : ℕ) (v : ℤ)
    → ((c == of_class && is_pos k v) ≡ true) ↔ ((c ≡ of_class) × (v ≡ pos k))
codes_iff c of_class k (pos n) = grind arith
codes_iff c of_class k (negsuc n) = grind arith

is_end_of_data_reply-cases :
    (e : ReplyEnvelope)
    → ((is_end_of_data_reply fetch_operation e ≡ true) × EndCode e)
      ⊎ ((is_end_of_data_reply fetch_operation e ≡ false) × ¬ EndCode e)
unfolding is_end_of_data_reply
is_end_of_data_reply-cases e =
    either (e.rc_class == 2 && is_pos 700 e.rc_code) (e.rc_class == 1 && is_pos 100 e.rc_code)
      (e.rc_class == 2 && is_pos 701 e.rc_code) (codes_iff e.rc_class 2 700 e.rc_code)
      (codes_iff e.rc_class 1 100 e.rc_code) (codes_iff e.rc_class 2 701 e.rc_code)
  where
    false_true : false ≡ true → ⊥
    false_true e = cc

    either :
        {P Q R : Type 0} (a b c : Bool)
        → (a ≡ true) ↔ P
        → (b ≡ true) ↔ Q
        → (c ≡ true) ↔ R
        → (((if a then true else if b then true else c) ≡ true) × (P ⊎ (Q ⊎ R)))
          ⊎ (((if a then true else if b then true else c) ≡ false) × ¬ (P ⊎ (Q ⊎ R)))
    either true b c p q r = inl (refl, inl (p.0 refl))
    either false true c p q r = inl (refl, inr (inl (q.0 refl)))
    either false false true p q r = inl (refl, inr (inr (r.0 refl)))
    either false false false p q r = inr (
      refl,
      λ any. elim any [
        | inl x ↦ false_true (p.1 x)
        | inr y ↦ elim y [ inl x ↦ false_true (q.1 x) | inr x ↦ false_true (r.1 x) ]
      ],
    )

with_codes-Marked :
    (e : ReplyEnvelope) (columns row_size : ℕ) (flags : List (List Bool)) (bytes : Bytes)
    → Marked e
        (block_of columns row_size flags bytes)
        (with_codes e (block_of columns row_size flags bytes))
with_codes-Marked e columns row_size flags bytes = record {
  read = refl;
  closes = codes_iff e.rc_class 2 700 e.rc_code;
  ends = codes_iff e.rc_class 2 701 e.rc_code;
}

module _ {N : Type 0} (net : Network N) where
  -- The warning that a reply of a fetch stands for, and its place on the connection: a reply without a
  -- warning and one with the code of an end leave the connection, any other one is recorded.
  abbrev pub reply_warning : ReplyEnvelope → SqlWarning
  reply_warning e = record {
    code = e.rc_code;
    state = [];
    message = returned_warning fetch_operation e.rc_class e.rc_code;
  }

  abbrev pub Warned : ReplyEnvelope → Conn N → Conn N → Type 0
  Warned e c c' =
      (((has_warning e ≡ false) ⊎ EndCode e) × (c' ≡ c))
      ⊎ ((has_warning e ≡ true) × ((¬ EndCode e) × (c' ≡ record_warning (reply_warning e ∷ []) c)))

  record_warning-net : (w : SqlWarning) (c : Conn N) → (record_warning (w ∷ []) c).net ≡ c.net
  unfolding record_warning
  record_warning-net w c = refl

  -- A reply without an error passes, and the network stays as it is.
  check_reply-passes :
      (handle : ℕ) (e : ReplyEnvelope) (payload : Bytes) (c : Conn N)
      → has_error e ≡ false
      → (c' : Conn N) × ((check_reply net handle fetch_operation e payload c ≡ (ok tt, c'))
          × ((c'.net ≡ c.net) × Warned e c c'))
  unfolding check_reply
  check_reply-passes handle e payload c h =
      either (has_warning e) refl (is_end_of_data_reply-cases e)
    where
      warned : Conn N
      warned = record_warning (reply_warning e ∷ []) c

      either :
          (t : Bool)
          → has_warning e ≡ t
          → ((is_end_of_data_reply fetch_operation e ≡ true) × EndCode e)
            ⊎ ((is_end_of_data_reply fetch_operation e ≡ false) × ¬ EndCode e)
          → (c' : Conn N) × ((check_reply net handle fetch_operation e payload c ≡ (ok tt, c'))
              × ((c'.net ≡ c.net) × Warned e c c'))
      either true f (inl (g, met)) = (c, (rw (f, g) refl, (refl, inl (inr met, refl))))
      either true f (inr (g, other)) = (
        warned,
        (rw (f, g) refl, (record_warning-net (reply_warning e) c, inr (f, (other, refl)))),
      )
      either false f g = (c, (rw (f, h) refl, (refl, inl (inl f, refl))))

  -- The fetch request can be built, and it is answered by a reply without an error code, of whole items
  -- of which the first with result data holds rows in the layout 0x380E within its ranges. Then
  -- fetchRows answers the block of these rows, in which the cursor counts as closed exactly on code 700 of
  -- class 2 and the data as ended exactly on code 701 of class 2. It leaves the network as the reply did. The reply is recorded as a warning
  -- exactly if it is one and its code is none of the ends 700 and 701 of class 2 and 100 of class 1, and else
  -- the connection has no further warning.
  pub fetch_rows-put_rows_data :
      (handle : ℕ) (cursor : Bytes) (size option : ℕ) (relative : ℤ) (c : Conn N) (request : Bytes)
      (e : ReplyEnvelope) (n : N) (before after : List Item) (token reserved columns row_size : ℕ)
      (rows : List Row) (tail : Bytes)
      → Build.build_fetch_request_for_statement net.codec handle cursor size option relative
        ≡ ok request
      → net.do_statement_request request handle c.net ≡ (
        ok (
          e,
          encode
              (before ++ (0x380E, put_rows_data token reserved columns row_size rows tail) ∷ after),
        ),
        n,
      )
      → has_error e ≡ false
      → has_result before ≡ false
      → All IsItem
          (before ++ (0x380E, put_rows_data token reserved columns row_size rows tail) ∷ after)
      → (token < 2 ^ 32) × (reserved < 2 ^ 32)
      → (length rows < 2 ^ 32) × (columns < 2 ^ 16) × (row_size < 2 ^ 32)
      → AreRows columns row_size rows
      → Fits (length rows) row_size
      → (b : FetchBlock) × (((fetch_rows net handle cursor size option relative c).0 ≡ ok b)
          × Marked e (block_of columns row_size (flags_of rows) (bytes_of rows)) b)
        × (((fetch_rows net handle cursor size option relative c).1.net ≡ n)
            × Warned e
                (record c { net = n })
                (fetch_rows net handle cursor size option relative c).1)
  unfolding fetch_rows
  fetch_rows-put_rows_data handle cursor size option relative c request e n before after token
        reserved columns row_size rows tail built sent fine first whole words fields shaped fits =
      let payload : Bytes = put_rows_data token reserved columns row_size rows tail in
      let items : List Item = before ++ (0x380E, payload) ∷ after in
      let c1 : Conn N = record c { net = n } in
      let (c2, (passes, (kept, warned))) = check_reply-passes handle e (encode items) c1 fine in
      let block : parse_fetch_payload (encode items)
          ≡ ok (block_of columns row_size (flags_of rows) (bytes_of rows)) =
        parse_fetch_payload-encode before payload after first whole
        ∙ parse-put_rows_data token reserved columns row_size rows tail words fields shaped fits in
      (
        with_codes e (block_of columns row_size (flags_of rows) (bytes_of rows)),
        (
          rw (built, sent, passes, block) refl,
          with_codes-Marked e columns row_size (flags_of rows) (bytes_of rows),
        ),
        (rw (built, sent, passes) kept, rw (built, sent, passes) warned),
      )

  -- What the rows of a cursor call, with the requests and replies above. `decode_value` is
  -- decodeColumnValueWithBidi with resolveLobLocatorValue, `open_set` is openAndDescribe, and the maps of
  -- Names are part of the network's state.
  abbrev pub rows_connection :
      {Column Format Value : Type 0}
      (decode_value : ResultSetMeta Column Format
        → Bool
        → Column
        → Bytes
        → Conn N
        → Ran (Conn N) Value)
      (open_set : ℕ
        → Bytes
        → Bytes
        → Conn N
        → Ran (Conn N) (Option (ResultSetMeta Column Format) × Option SqlWarning))
      (release_default run_release : Conn N → Conn N) (column_length : Column → ℕ)
      (zero_format : Format)
      → Connection (Conn N) Column Format Value SqlWarning
  rows_connection decode_value open_set release_default run_release column_length zero_format =
      record {
        fetch_rows = fetch_rows net;
        decode = decode_value;
        close_cursor = close_cursor net;
        close_result_set_cursor_no_reply = close_result_set_cursor_no_reply net;
        close_prepared_statement = close_prepared_statement net;
        open_and_describe = open_set;
        record_warning = λ warning c. recorded warning c;
        release_default_cursor = λ handle c. release_default c;
        run_release = run_release;
        column_length = column_length;
        zero_format = zero_format;
      }
    where
      recorded : Option SqlWarning → Conn N → Conn N
      recorded none c = c
      recorded (some w) c = record_warning (w ∷ []) c
