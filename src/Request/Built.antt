-- ===== src/Request/Built.antt =====
-- Every request that a build function makes is framed, and the readers of packets and headers take it
-- back.
use i.Prelude.{ℕ, ◌≡◌, Bytes, Option, none, some, ℤ, arith, subst}
use i.Errors.{ok}
use i.Request.Attributes.{
  Codec, PackageSpec, Body, no_body, attribute, byte_attribute, short_attribute, to_uint32,
}
use i.Request.Framing.{
  IsBody, no_body-IsBody, byte_attribute-IsBody, short_attribute-IsBody, int_attribute-IsBody,
  append_prepare_attributes-IsBody, append_execute_attributes-IsBody,
  append_library_attributes-IsBody,
}
use i.Request.Statements.{
  StatementType, unknown, insert_update_delete, select, call, classify_sql_statement,
  cursor_name_for_statement,
}
use i.Request.Build
use i.Request.Calls.{
  Call, create_rpb, prepare_and_describe, open_and_describe, fetch, close_cursor,
  close_result_set_cursor, execute_immediate, execute_call_no_params, create_package, delete_rpb,
  test_connection, commit, rollback, auto_commit_level, change_rpb_query_timeout, send_results_set,
  retrieve_lob_data, free_lob, set_descriptor, remove_descriptor, execute_values, open_values,
  write_lob, execute_rows, build, function_of, handle_of, descriptor_of,
}
use i.Request.Carried.{
  change_descriptor-Framed, delete_descriptor-Framed, execute_prepared-Framed,
  open_describe_prepared-Ensures, write_lob_data-Framed, block_execute-Ensures,
}
use i.Request.Framed.{
  FramedFor, Ensures, finish_request-Framed, named, texted, scroll_option-IsBody,
}

module _ (codec : Codec) where
  create_rpb-Ensures :
      (h : ℕ) (n : Bytes) (pkg : Option PackageSpec)
      → Ensures 0x1D00 h 0 (Build.build_create_rpb_request codec h n pkg)
  unfolding Build.build_create_rpb_request
  create_rpb-Ensures h n pkg =
      named codec 0x1D00 h 0 0x3806 n no_body _ (omega arith) no_body-IsBody λ attr first.
        named codec 0x1D00 h 0 0x380B (cursor_name_for_statement h) (attribute attr no_body) _
          (omega arith) first
          λ attr' second.
            finish_request-Framed 0x1D00 0 h 0 (append_library_attributes-IsBody codec pkg second)

  open_and_describe-Ensures :
      (n c : Bytes) → Ensures 0x1804 0 0 (Build.build_open_and_describe_request codec n c)
  unfolding Build.build_open_and_describe_request
  open_and_describe-Ensures n c =
      named codec 0x1804 0 0 0x3806 n no_body _ (omega arith) no_body-IsBody λ attr first.
        named codec 0x1804 0 0 0x380B c (attribute attr no_body) _ (omega arith) first
          λ attr' second. finish_request-Framed 0x1804 _ 0 0 (
            short_attribute-IsBody
              (byte_attribute-IsBody
                (byte_attribute-IsBody (byte_attribute-IsBody second 0x3809 0x80 (omega arith))
                  0x3833 0xE8 (omega arith))
                0x380A 0xD5 (omega arith))
              0x380D 0 (omega arith))

  fetch-Ensures :
      (h : ℕ) (c : Bytes) (size option : ℕ) (relative : ℤ)
      → Ensures 0x180B h 0 (Build.build_fetch_request_for_statement codec h c size option relative)
  unfolding Build.build_fetch_request_for_statement
  fetch-Ensures h c size option relative =
      named codec 0x180B h 0 0x380B c no_body _ (omega arith) no_body-IsBody λ attr first.
        finish_request-Framed 0x180B _ h 0 (
          int_attribute-IsBody
            (byte_attribute-IsBody (scroll_option-IsBody option relative codec first) 0x3833 0xE8
              (omega arith))
            0x3834 size (omega arith))

  close_cursor-Ensures :
      (c : Bytes) (reuse : ℕ) → Ensures 0x180A 0 0 (Build.build_close_cursor_request codec c reuse)
  unfolding Build.build_close_cursor_request
  close_cursor-Ensures c reuse =
      named codec 0x180A 0 0 0x380B c no_body _ (omega arith) no_body-IsBody λ attr first.
        finish_request-Framed 0x180A _ 0 0 (byte_attribute-IsBody first 0x3810 reuse (omega arith))

  close_result_set_cursor-Ensures :
      (h : ℕ) (c : Bytes) (reuse : ℕ)
      → Ensures 0x180A h 0 (Build.build_close_result_set_cursor_request codec h c reuse)
  unfolding Build.build_close_result_set_cursor_request
  close_result_set_cursor-Ensures h c reuse =
      named codec 0x180A h 0 0x380B c no_body _ (omega arith) no_body-IsBody λ attr first.
        finish_request-Framed 0x180A _ h 0 (byte_attribute-IsBody first 0x3810 reuse (omega arith))

  create_package-Ensures :
      (n l : Bytes) → Ensures 0x180F 0 0 (Build.build_create_package_request codec n l)
  unfolding Build.build_create_package_request
  create_package-Ensures n l =
      named codec 0x180F 0 0 0x3804 n no_body _ (omega arith) no_body-IsBody λ attr first.
        named codec 0x180F 0 0 0x3801 l (attribute attr no_body) _ (omega arith) first
          λ attr' second. finish_request-Framed 0x180F _ 0 0 second

  typed-IsBody :
      (v : ℕ) {b : Body}
      → IsBody b
      → IsBody (byte_attribute 0x3809 0x80 (short_attribute 0x3812 v b))
  typed-IsBody v h =
      byte_attribute-IsBody (short_attribute-IsBody h 0x3812 v (omega arith)) 0x3809 0x80
        (omega arith)

  prepare_type-IsBody :
      (t : StatementType) {b : Body} → IsBody b → IsBody (Build.prepare_type codec t b)
  prepare_type-IsBody select h = typed-IsBody 2 h
  prepare_type-IsBody call h = typed-IsBody 3 h
  prepare_type-IsBody unknown h = h
  prepare_type-IsBody insert_update_delete h = h

  immediate_type-IsBody :
      (t : StatementType) (pkg : Option PackageSpec) {b : Body}
      → IsBody b
      → IsBody (Build.immediate_type codec t pkg b)
  immediate_type-IsBody call none h =
      byte_attribute-IsBody (typed-IsBody 3 h) 0x3808 0 (omega arith)
  immediate_type-IsBody call (some s) h = typed-IsBody 3 h
  immediate_type-IsBody select pkg h = h
  immediate_type-IsBody unknown pkg h = h
  immediate_type-IsBody insert_update_delete pkg h = h

  prepare_and_describe-Ensures :
      (h : ℕ) (n q : Bytes) (pkg : Option PackageSpec) (c : ℕ)
      → Ensures 0x1803 h 0 (Build.build_prepare_and_describe_request_ccsid codec h n q pkg c)
  unfolding Build.build_prepare_and_describe_request_ccsid
  prepare_and_describe-Ensures h n q pkg c =
      named codec 0x1803 h 0 0x3806 n no_body _ (omega arith) no_body-IsBody λ attr first.
        texted codec 0x1803 h 0 q c _ _
          (append_prepare_attributes-IsBody codec pkg
            (prepare_type-IsBody (classify_sql_statement q) first))
          λ attr' second. finish_request-Framed 0x1803 _ h 0 second

  execute_immediate-Ensures :
      (q : Bytes) (t : StatementType) (pkg : Option PackageSpec) (c : ℕ)
      → Ensures 0x1806 0 0 (Build.build_execute_immediate_request_ccsid codec q t pkg c)
  unfolding Build.build_execute_immediate_request_ccsid
  execute_immediate-Ensures q t pkg c =
      texted codec 0x1806 0 0 q c _ _
        (append_prepare_attributes-IsBody codec pkg (immediate_type-IsBody t pkg no_body-IsBody))
        λ attr first. finish_request-Framed 0x1806 _ 0 0 first

  build-Ensures :
      (c : Call) → Ensures (function_of c) (handle_of c) (descriptor_of c) (build codec c)
  unfolding build Build.build_execute_call_no_params_request Build.build_delete_rpb_request
      Build.build_test_connection_request Build.build_commit_request Build.build_rollback_request
      Build.build_auto_commit_request_level Build.build_change_rpb_query_timeout_request
      Build.build_send_results_set_request Build.build_retrieve_lob_data_request
      Build.build_free_lob_request
  build-Ensures (create_rpb h n pkg) = create_rpb-Ensures h n pkg
  build-Ensures (prepare_and_describe h n q pkg c) = prepare_and_describe-Ensures h n q pkg c
  build-Ensures (open_and_describe n c) = open_and_describe-Ensures n c
  build-Ensures (fetch h c size option relative) = fetch-Ensures h c size option relative
  build-Ensures (close_cursor c reuse) = close_cursor-Ensures c reuse
  build-Ensures (close_result_set_cursor h c reuse) = close_result_set_cursor-Ensures h c reuse
  build-Ensures (execute_immediate q t pkg c) = execute_immediate-Ensures q t pkg c
  build-Ensures (execute_call_no_params h pkg) = finish_request-Framed 0x1805 _ h 0 (
      append_execute_attributes-IsBody codec pkg
        (short_attribute-IsBody no_body-IsBody 0x3812 3 (omega arith)))
  build-Ensures (create_package n l) = create_package-Ensures n l
  build-Ensures (delete_rpb h) = finish_request-Framed 0x1D02 _ h 0 no_body-IsBody
  build-Ensures test_connection = finish_request-Framed 0x0000 _ 0 0 no_body-IsBody
  build-Ensures commit = finish_request-Framed 0x1807 _ 0 0 no_body-IsBody
  build-Ensures rollback = finish_request-Framed 0x1808 _ 0 0 no_body-IsBody
  build-Ensures (auto_commit_level enabled level) = finish_request-Framed 0x1F80 _ 0 0 (
      short_attribute-IsBody
        (byte_attribute-IsBody no_body-IsBody 0x3824 (Build.auto_commit_indicator enabled)
          (omega arith))
        0x380E level (omega arith))
  build-Ensures (change_rpb_query_timeout h seconds) =
      finish_request-Framed 0x1D03 _ h 0
        (int_attribute-IsBody no_body-IsBody 0x3817 (to_uint32 seconds) (omega arith))
  build-Ensures (send_results_set h bitmap) = finish_request-Framed 0x1F00 _ h 0 no_body-IsBody
  build-Ensures (retrieve_lob_data l size) = finish_request-Framed 0x1816 _ 0 0 (
      byte_attribute-IsBody
        (byte_attribute-IsBody
          (int_attribute-IsBody
            (int_attribute-IsBody (int_attribute-IsBody no_body-IsBody 0x3818 l (omega arith))
              0x3819 size (omega arith))
            0x381A 0 (omega arith))
          0x381B 0xF0 (omega arith))
        0x3821 0xF1 (omega arith))
  build-Ensures (set_descriptor h d format bs) = change_descriptor-Framed h d format bs
  build-Ensures (remove_descriptor h d) = delete_descriptor-Framed h d
  build-Ensures (execute_values h d t format bs pkg) =
      execute_prepared-Framed codec h d t format bs pkg
  build-Ensures (open_values h d n c format bs scrollable hold pkg) =
      open_describe_prepared-Ensures codec h d n c format bs scrollable hold pkg
  build-Ensures (write_lob write) = write_lob_data-Framed write
  build-Ensures (execute_rows h d t format rows pkg) =
      block_execute-Ensures codec h d t format rows pkg
  build-Ensures (free_lob l) =
      finish_request-Framed 0x1819 _ 0 0
        (int_attribute-IsBody no_body-IsBody 0x3818 l (omega arith))

-- A request that a build function makes carries the function code, statement handle and descriptor handle of
-- its call, its own length modulo 2 ^ 32 in the header, and as many well-formed items as its template counts.
pub build-Framed :
    (codec : Codec) (c : Call) {request : Bytes}
    → build codec c ≡ ok request
    → FramedFor (function_of c) (handle_of c) (descriptor_of c) request
build-Framed codec c {request} e =
    subst (Ensures (function_of c) (handle_of c) (descriptor_of c)) e (build-Ensures codec c)
