-- ===== src/Tests/Calls.antt =====
-- A server with one method that answers twice and then panics, and a client.
use clustergo.Rpc.Server.{
  Effect, replied, Replyer, replies_with, panics, Method, Server, new_server, answer, reply, error,
  act, perform, conclude, serve, settle, call_out_interceptor, call_method, on_message,
}
use clustergo.Rpc.Server.Once.{responses, AllFor, on_message_once}
use clustergo.Rpc.Server.Answers.{Fails, is_panicking, error_of, error_response, on_message-Fails}
use clustergo.Rpc.Client.{new_client, load_and_delete}
use clustergo.Rpc.Client.Sequence.{make_sequences, IsAbove, last_sequence, make_sequences-IsAbove}
use clustergo.Rpc.Client.Pending.{load_and_delete-panic}
use clustergo.Rpc.Bytes.{Fault}
use clustergo.Rpc.Message.{RequestMsg, nil, object, err_other, decode_into}
use clustergo.Common.{
  ℕ, ◌+◌, ◌^◌, ◌%◌, ◌≤◌, ◌≡◌, ◌≢◌, ◌↔◌, refl, arith, true, false, List, [], ◌∷◌, ◌++◌, none,
  Outcome, ok, panic, length,
}
use clustergo.Common.Table.{lookup, bytes_eq}
use clustergo.Common.Text.{codes}

abbrev copy : ℕ → ℕ → Outcome Fault ℕ
copy dst v = ok v

abbrev no_text : Fault → List ℕ
no_text f = []

abbrev twice : Method ℕ
twice = record {
  new = 0;
  run = λ v. record { actions = replies_with (object v) ∷ replies_with nil ∷ []; verdict = panics };
}

abbrev crash : Method ℕ
crash = record { new = 0; run = λ v. record { actions = []; verdict = panics } }

abbrev two_methods : Server ℕ
two_methods = record new_server { methods = (b't' ∷ [], twice) ∷ (b'c' ∷ [], crash) ∷ [] }

abbrev call : List ℕ → RequestMsg ℕ
call name = record {
  seq = 9;
  method = name;
  arg = object 5;
  user_data = [];
  oneway = false;
  codec = none;
}

abbrev after_twice : Replyer ℕ
after_twice = record { req = call (b't' ∷ []); replyed = true; out_interceptor = [] }

abbrev five_replied : List (Effect ℕ)
five_replied =
    replied (record { seq = 9; error = none; ret = object 5; user_data = []; codec = none }) ∷ []

on_message_once_example :
    (length (responses (five_replied ++ (perform after_twice (replies_with nil ∷ [])).1)) ≤ 1)
    × (false ≡ true
        → responses (five_replied ++ (perform after_twice (replies_with nil ∷ [])).1) ≡ [])
    × AllFor 9 (responses (five_replied ++ (perform after_twice (replies_with nil ∷ [])).1))
unfolding on_message call_method lookup decode_into serve settle conclude perform act reply error
    answer call_out_interceptor
on_message_once_example =
    on_message_once copy no_text two_methods (call (b't' ∷ [])) after_twice five_replied
      (replies_with nil ∷ []) refl

crashes :
    Fails copy no_text two_methods (call (b'c' ∷ [])) (error_of err_other (codes "method panic"))
unfolding lookup decode_into perform
crashes = is_panicking crash 5 refl refl refl refl refl refl

on_message-Fails_example :
    (r : Replyer ℕ) × (es : List (Effect ℕ)) × (on_message copy no_text two_methods
        (call (b'c' ∷ []))
      ≡ ok (r, es))
    × (responses es ≡ error_response 9 (error_of err_other (codes "method panic")) ∷ [])
on_message-Fails_example =
    on_message-Fails copy no_text two_methods (call (b'c' ∷ []))
      (error_of err_other (codes "method panic")) refl crashes

-- The clock stands, and goes back.
make_sequences-IsAbove_example :
    IsAbove
      (last_sequence (new_client {C = ℕ}))
      (make_sequences (100 ∷ 100 ∷ 99 ∷ 101 ∷ []) (new_client {C = ℕ}))
make_sequences-IsAbove_example =
    make_sequences-IsAbove (100 ∷ 100 ∷ 99 ∷ 101 ∷ []) new_client
      (omega arith, (omega arith, (omega arith, (omega arith, tt)))) (omega arith) (omega arith)

load_and_delete-panic_example :
    (load_and_delete (new_client {C = ℕ}) (2 ^ 63 + 1) ≡ panic)
    ↔ ((2 ^ 63 ≤ 2 ^ 63 + 1) × ((2 ^ 63 + 1) % 32 ≢ 0))
load_and_delete-panic_example = load_and_delete-panic new_client (2 ^ 63 + 1) (omega arith)

-- The response does make the client panic.
one_panics : load_and_delete (new_client {C = ℕ}) (2 ^ 63 + 1) ≡ panic
one_panics =
    (load_and_delete-panic new_client (2 ^ 63 + 1) (omega arith)).1 (omega arith, omega arith)
