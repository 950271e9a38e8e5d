-- ===== src/DataAgent/ToolResults.antt =====
-- What the tool that asks the data agent passes on.
use mathlib.Core.Path.{subst}
use baa_system.Base.{
  ℕ, ◌≤◌, ◌≡◌, refl, Bool, true, false, Option, none, some, List, String, length, is_empty, ltb,
  arith, by_test, by_option,
}
use baa_system.Outcome.{
  continue-Ends, recover-Ends, ◌>>=◌, lift, returned, Ends, Ends-of, Yields, Yields-then,
}
use baa_system.DataAgent.Sql.{Libraries, validate_read_only_sql}
use baa_system.DataAgent.Client.{
  Fields, number, ClientFault, value_fault, http_fault, sql_fault, type_fault, Http, scan_fault,
  check_columns, check_rows, check_fields, store_rows, caught, client_query, run_db_query, strict,
}
use baa_system.Agent.Runtime.{ToolResult}

module _ {T R : Type 0} (lib : Libraries T) (allowed_tables : List String)
    (agent_max_rows data_agent_max_scanned_rows : ℕ) where
  -- An answer whose statement is accepted, with rows and columns of the right types, at least one
  -- row and not too many, and not too many scanned rows, where they are told.
  pub record IsUsable (fields : Fields R) (rows : List R) (columns : List String) : Type 0 where
    pub accepted : validate_read_only_sql lib fields.sql allowed_tables ≡ none
    pub scanned : (n : ℕ) → fields.scanned_rows ≡ number n → n ≤ data_agent_max_scanned_rows
    pub own_rows : strict fields.rows ≡ some rows
    pub own_columns : strict fields.columns ≡ some columns
    pub few_rows : length rows ≤ agent_max_rows
    pub some_rows : is_empty rows ≡ false

  abbrev Usable : Fields R → List R × List String → Type 0
  Usable fields answer = IsUsable fields answer.0 answer.1

  check_rows-Usable :
      (fields : Fields R)
      → validate_read_only_sql lib fields.sql allowed_tables ≡ none
      → scan_fault data_agent_max_scanned_rows fields.scanned_rows ≡ none
      → Ends (Usable fields) (λ _. Unit {0}) (check_rows agent_max_rows fields.rows fields.columns)
  unfolding check_rows check_columns scan_fault
  check_rows-Usable fields accepted fits =
      by_option (Ends (Usable fields) (λ _. Unit {0})) (strict fields.rows) _ _ (λ _. tt)
        λ rows own_rows.
          by_test (Ends (Usable fields) (λ _. Unit {0})) (ltb agent_max_rows (length rows)) _ _
            (λ _. tt)
            λ few.
              by_option (Ends (Usable fields) (λ _. Unit {0})) (strict fields.columns) _ _ (λ _. tt)
                λ names own_columns.
                  by_test (Ends (Usable fields) (λ _. Unit {0})) (is_empty rows) _ _ (λ _. tt)
                    λ some_rows. record {
                      accepted = accepted;
                      scanned = λ n e. ground arith;
                      own_rows = own_rows;
                      own_columns = own_columns;
                      few_rows = ground arith;
                      some_rows = some_rows;
                    }

  check_fields-Usable :
      (fields : Fields R)
      → Ends
          (Usable fields)
          (λ _. Unit {0})
          (check_fields lib allowed_tables agent_max_rows data_agent_max_scanned_rows fields)
  unfolding check_fields
  check_fields-Usable fields =
      by_option (Ends (Usable fields) (λ _. Unit {0}))
        (validate_read_only_sql lib fields.sql allowed_tables) _ _
        (λ accepted.
          by_option (Ends (Usable fields) (λ _. Unit {0}))
            (scan_fault data_agent_max_scanned_rows fields.scanned_rows) _ _
            (λ fits. check_rows-Usable fields accepted fits) (λ _ _. tt))
        (λ _ _. tt)

  module _ {S : Type 0} (http : Http S R) (status_text : ℕ → String) (base_url storage_key : String)
      (fault_text : ClientFault → String) (counts : ℕ → ℕ → String) where
    -- The rows and columns of the result are those of the answer that the client got, and this is
    -- usable.
    abbrev pub Passed : S → ToolResult (Option (List R × List String)) → Type 0
    Passed s result =
        (fields : Fields R) × (rows : List R) × (columns : List String) × ((client_query http
            status_text base_url s).0
          ≡ returned fields)
        × IsUsable fields rows columns
        × (result.output ≡ some (rows, columns))

    abbrev PassesOn : S → ToolResult (Option (List R × List String)) → Type 0
    PassesOn s result = result.ok ≡ true → Passed s result

    store_rows-PassesOn :
        (s : S) (fields : Fields R) (answer : List R × List String)
        → (client_query http status_text base_url s).0 ≡ returned fields
        → Usable fields answer
        → Yields
            (PassesOn s)
            (λ _. Unit {0})
            (store_rows lib allowed_tables agent_max_rows data_agent_max_scanned_rows http
              status_text base_url storage_key fault_text counts answer)
    unfolding store_rows
    store_rows-PassesOn s fields (rows, columns) answered usable =
        Yields-then (λ _. Unit {0}) (PassesOn s) (λ _. Unit {0})
          (http.write_csv storage_key rows columns) _
          (λ s'. Ends-of _ _ (http.write_csv storage_key rows columns s').0 (λ _ _. tt) (λ _ _. tt))
          (λ _ _ _ good. (fields, rows, columns, answered, usable, refl))

    caught-PassesOn :
        (s : S) (fault : ClientFault)
        → Yields
            (PassesOn s)
            (λ _. Unit {0})
            (caught lib allowed_tables agent_max_rows data_agent_max_scanned_rows http status_text
              base_url storage_key fault_text counts fault)
    caught-PassesOn s (value_fault message) = λ s' good. absurd cc
    caught-PassesOn s http_fault = λ s' good. absurd cc
    caught-PassesOn s sql_fault = λ s' good. absurd cc
    caught-PassesOn s type_fault = λ s'. tt

    -- What follows the request.
    queried :
        (s : S)
        → Ends
            (PassesOn s)
            (λ _. Unit {0})
            ((client_query http status_text base_url >>= λ fields.
                (lift (
                    check_fields lib allowed_tables agent_max_rows data_agent_max_scanned_rows
                      fields)
                  >>= store_rows lib allowed_tables agent_max_rows data_agent_max_scanned_rows http
                      status_text base_url storage_key fault_text counts))
              s).0
    queried s =
        continue-Ends (λ fields. (client_query http status_text base_url s).0 ≡ returned fields)
          (PassesOn s) (λ _. Unit {0}) _ (client_query http status_text base_url s)
          (Ends-of _ _ (client_query http status_text base_url s).0 (λ _ e. e) (λ _ _. tt))
          (λ fields answered.
            Yields-then (Usable fields) (PassesOn s) (λ _. Unit {0}) _ _
              (λ s'. check_fields-Usable fields)
              (λ answer usable. store_rows-PassesOn s fields answer answered usable))

    run-Ends :
        (has_client : Bool) (s : S)
        → Ends
            (PassesOn s)
            (λ _. Unit {0})
            (run_db_query lib allowed_tables agent_max_rows data_agent_max_scanned_rows http
              status_text base_url storage_key fault_text counts has_client s).0
    unfolding run_db_query
    run-Ends false s = λ good. absurd cc
    run-Ends true s =
        recover-Ends (PassesOn s) (λ _. Unit {0}) (λ _. Unit {0}) _ _ (queried s)
          (λ fault _. caught-PassesOn s fault)

    -- Whatever the data agent answers, a good result of the tool carries the rows and columns of
    -- that answer, and its statement is accepted, its rows are objects, at least one and within the
    -- limit, its columns are texts, and its scanned rows, where it tells them, are within theirs.
    pub run_db_query-Passed :
        (has_client : Bool) (s : S) (result : ToolResult (Option (List R × List String)))
        → (run_db_query lib allowed_tables agent_max_rows data_agent_max_scanned_rows http
            status_text base_url storage_key fault_text counts has_client s).0
          ≡ returned result
        → result.ok ≡ true
        → Passed s result
    run_db_query-Passed has_client s result e =
        subst (Ends (PassesOn s) (λ _. Unit {0})) e (run-Ends has_client s)
