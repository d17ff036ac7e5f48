-- ===== src/Wrapper/Failures.antt =====
-- How a provider call's result is judged: never a failure with exit code 0, never one without a code
-- and a message.
use warcraft_cli.Base.{
  zero, suc, ◌≤◌, String, ◌≡◌, ◌≢◌, ◌↔◌, true, false, Option, none, some, arith, eq_iff, cat,
}
use warcraft_cli.ExitCodes.{exit_generic, exit_code_for}
use warcraft_cli.Json.{
  ℤ, pos, negsuc, Value, Fields, str, dict, end, field, lookup, truthy, as_dict,
}
use warcraft_cli.Json.Laws.{lookup-insert}
use warcraft_cli.Wrapper.{
  as_int, text_exit_code, mapped_exit_code, exit_code_unless_zero, source_exit_code, is_zero,
  is_false, value_or, value_of, call_failure, failed_call,
}

exit_code_for-pos : (code : String) → 1 ≤ exit_code_for code exit_generic
unfolding exit_code_for
exit_code_for-pos code = ground arith

text_exit_code-ne-zero : (v : Option Value) → text_exit_code v ≢ pos 0
unfolding text_exit_code
text_exit_code-ne-zero none h = ground arith
text_exit_code-ne-zero (some (str code)) h = ground (arith, exit_code_for-pos code)
text_exit_code-ne-zero (some v) h = ground arith

mapped_exit_code-ne-zero : (e : Option Value) → mapped_exit_code e ≢ pos 0
unfolding mapped_exit_code text_exit_code
mapped_exit_code-ne-zero none h = ground arith
mapped_exit_code-ne-zero (some (dict d)) h = text_exit_code-ne-zero (lookup "code" d) h
mapped_exit_code-ne-zero (some v) h = ground arith

unless_zero-ne-zero : (o : Option ℤ) (n : ℤ) → n ≢ pos 0 → exit_code_unless_zero o n ≢ pos 0
unfolding exit_code_unless_zero
unless_zero-ne-zero none n h e = h e
unless_zero-ne-zero (some (pos zero)) n h e = h e
unless_zero-ne-zero (some (pos (suc m))) n h e = ground arith
unless_zero-ne-zero (some (negsuc m)) n h e = ground arith

source_exit_code-ne-zero : (r : Fields) → source_exit_code r ≢ pos 0
unfolding source_exit_code
source_exit_code-ne-zero r =
    unless_zero-ne-zero (as_int (lookup "exit_code" r)) _
      (mapped_exit_code-ne-zero (lookup "error" r))

-- The text that `or` falls back to is never empty.
cat-ne-empty : (s t : String) → t ≢ "" → cat s t ≢ ""
unfolding cat
cat-ne-empty String.[] t h e = h e
cat-ne-empty (String.◌∷◌ c s) t h e = cc

exited-ne-empty : (s : String) → cat " exited " s ≢ ""
unfolding cat
exited-ne-empty s e = cc

value_or-truthy : (v : Option Value) (w : Value) → truthy w ≡ true → truthy (value_or v w) ≡ true
unfolding value_or
value_or-truthy none w h = h
value_or-truthy (some v) w h = ground arith

truthy-str : (s : String) → s ≢ "" → truthy (str s) ≡ true
unfolding truthy
truthy-str s h = ground (arith, eq_iff s "")

module _ (format : Value → String) (result : Fields) where
  abbrev error_of : Fields
  error_of = as_dict (lookup "error" (as_dict (lookup "payload" result)))

  abbrev failure_of : Fields
  failure_of = call_failure format result error_of

  failed_call-none : (failed_call format result ≡ none) ↔ (
      (is_zero (lookup "exit_code" result) ≡ true)
      × (is_false (lookup "ok" (as_dict (lookup "payload" result))) ≡ false))
  unfolding failed_call
  failed_call-none = (λ e. ground arith, λ e. ground arith)

  failed_call-some :
      (failure : Fields) (code : ℤ)
      → failed_call format result ≡ some (failure, code)
      → (failure ≡ failure_of) × (code ≢ pos 0)
  unfolding failed_call
  failed_call-some failure code e = ground (
    arith,
    source_exit_code-ne-zero (
        field "exit_code" (value_of (lookup "exit_code" result))
          (field "error" (dict failure_of) end)),
  )

  failure-code : (v : Value) × (lookup "code" failure_of ≡ some v) × (truthy v ≡ true)
  unfolding call_failure
  failure-code = (
    value_or (lookup "code" error_of) (str "provider_failed"),
    simp lookup-insert,
    value_or-truthy _ _ (truthy-str "provider_failed" (λ e. cc)),
  )

  failure-message : (v : Value) × (lookup "message" failure_of ≡ some v) × (truthy v ≡ true)
  unfolding call_failure
  failure-message = (
    _,
    lookup-insert "message" "message" _ _,
    value_or-truthy _ _ (truthy-str _ (cat-ne-empty _ _ (exited-ne-empty _))),
  )

  -- A call is a success exactly when it exits with zero and its payload's `ok` is not `False`.
  -- Otherwise the failure holds a code and a message that are not empty, and an exit code that is
  -- not zero.
  pub failed_call_lem :
      ((failed_call format result ≡ none) ↔ (
        (is_zero (lookup "exit_code" result) ≡ true)
        × (is_false (lookup "ok" (as_dict (lookup "payload" result))) ≡ false)))
      × ((failure : Fields) (code : ℤ)
          → failed_call format result ≡ some (failure, code)
          → (code ≢ pos 0)
            × ((v : Value) × (lookup "code" failure ≡ some v) × (truthy v ≡ true))
            × ((v : Value) × (lookup "message" failure ≡ some v) × (truthy v ≡ true)))
  failed_call_lem = (
    failed_call-none,
    λ failure code e.
        let (same, nonzero) = failed_call-some failure code e in
        (nonzero, rw same failure-code, rw same failure-message),
  )
