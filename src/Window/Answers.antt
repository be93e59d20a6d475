-- ===== src/Window/Answers.antt =====
-- Every request to a window is answered, and the answer can be read.
use os_domotics.Commands.{
  is_delete, is_info, is_link, is_switch, link_change_parent, link_subcommand, max_request_size,
  max_response_arguments, max_response_size,
}
use os_domotics.Devices.{window_device}
use os_domotics.Messages.{Response, format_response, parse_response}
use os_domotics.Messages.Bounds.{
  All-set, length-format_response, parse_request-IsRequest, parse_request-code,
}
use os_domotics.Messages.Requests.{IsRequest}
use os_domotics.Messages.Responses.{
  IsResponse, IsSendable, IsWord, parse_response-format_response, parse_response-head, received,
}
use os_domotics.Messages.Sendable.{bare-IsSendable, filled-IsSendable}
use os_domotics.Prelude.{
  All, Bool-cases, List, [], ap, arith, if◌then◌else◌, inl, inr, int_u16, length, length-set,
  negsuc, pos, refl, set, subst, sym, u16, ℕ, ℤ, ◌<◌, ◌==◌, ◌∙◌, ◌∷◌, ◌≡◌, ◌≤◌,
}
use os_domotics.ReturnCodes.{is_error, ok, unable_to_write_pipe}
use os_domotics.Utils.{Effect, Kernel, Reading, failed, got, printed, wrote}
use os_domotics.Utils.Pipes.{change_snd_responses_pipe-code}
use os_domotics.Window.{
  Window, change_parent, create_info_response, create_link_response, create_switch_response,
  dispatch, execute_command, minutes_open, process, read_pipe, write_pipe,
}

pub record IsWindow (w : Window) : Type 0 where
  pub state : w.state ≤ 1
  pub request : IsRequest w.request
  pub response : IsResponse w.response
  pub buffer : length w.buffer_write ≡ max_response_size

read_pipe-IsWindow :
    (reading : Reading) (w : Window) → IsWindow w → IsWindow (read_pipe reading w).0
unfolding read_pipe
read_pipe-IsWindow failed w v = v
read_pipe-IsWindow (got size buffer) w v =
    let parsed = parse_request-IsRequest w.request buffer max_request_size v.request in ground arith

read_pipe-code : (reading : Reading) (w : Window) → (read_pipe reading w).1 < 256
unfolding read_pipe
read_pipe-code failed w = omega arith
read_pipe-code (got size buffer) w =
    ground (arith, parse_request-code w.request buffer max_request_size)

abbrev stored : List ℕ → ℕ → ℕ → List ℕ
stored xs x y = set (set xs 0 x) 1 y

stored-IsWord :
    (xs : List ℕ) (x y : ℕ) → All IsWord xs → IsWord x → IsWord y → All IsWord (stored xs x y)
stored-IsWord xs x y h hx hy = All-set (set xs 0 x) 1 y (All-set xs 0 x h hx) hy

length-stored : (xs : List ℕ) (x y : ℕ) → length (stored xs x y) ≡ length xs
length-stored xs x y = length-set (set xs 0 x) 1 y ∙ length-set xs 0 x

minutes-IsWord : (z : ℤ) → IsWord (int_u16 z)
minutes-IsWord (pos n) = omega arith
minutes-IsWord (negsuc n) = omega arith

create_info_response-IsWindow :
    (k : Kernel) (w : Window) → IsWindow w → IsWindow (create_info_response k w)
unfolding create_info_response
create_info_response-IsWindow k w v =
    let words =
      stored-IsWord w.response.arguments (u16 w.state) (minutes_open k w) v.response.arguments
        (omega arith) (minutes-IsWord _) in
    let cells = length-stored w.response.arguments (u16 w.state) (minutes_open k w) in
    record {
      state = v.state;
      request = v.request;
      response = record {
        source = v.response.source;
        command_code = v.response.command_code;
        response_code = v.response.response_code;
        cells = cells ∙ v.response.cells;
        arguments_size = omega arith;
        arguments = words;
      };
      buffer = v.buffer;
    }

change_parent-IsWindow :
    (k : Kernel) (parent : ℕ) (w : Window) → IsWindow w → IsWindow (change_parent k parent w)
change_parent-IsWindow k parent w v =
    let code = change_snd_responses_pipe-code k parent w.snd_responses_fd in
    elim (Bool-cases (w.parent_id == parent)) [
      | inl same ↦ rw same v
      | inr other ↦ rw other (ground (arith, v.response.arguments))
    ]

create_link_response-IsWindow :
    (k : Kernel) (w : Window) → IsWindow w → IsWindow (create_link_response k w)
unfolding create_link_response
create_link_response-IsWindow k w v =
    let words =
      stored-IsWord w.response.arguments (u16 w.request.argument) window_device v.response.arguments
        (omega arith) (omega arith) in
    let cells = length-stored w.response.arguments (u16 w.request.argument) window_device in
    elim (Bool-cases (link_subcommand w.request.command_code == link_change_parent)) [
      | inl change ↦ rw change (
          change_parent-IsWindow k w.request.argument _ (record {
            state = v.state;
            request = v.request;
            response = record {
              source = v.response.source;
              command_code = v.response.command_code;
              response_code = v.response.response_code;
              cells = cells ∙ v.response.cells;
              arguments_size = omega arith;
              arguments = words;
            };
            buffer = v.buffer;
          }))
      | inr other ↦ rw other (ground (arith, v.response.arguments))
    ]

create_switch_response-IsWindow :
    (k : Kernel) (w : Window) → IsWindow w → IsWindow (create_switch_response k w)
unfolding create_switch_response
create_switch_response-IsWindow k w v = ground (arith, v.response.arguments)

dispatch-IsWindow : (k : Kernel) (w : Window) → IsWindow w → IsWindow (dispatch k w)
unfolding dispatch
dispatch-IsWindow k w v =
    let w' = record w {
      response = record w.response { command_code = w.request.command_code; response_code = ok };
    } in
    let v' : IsWindow w' = ground (arith, v.response.arguments) in
    let info = create_info_response-IsWindow k w' v' in
    let link = create_link_response-IsWindow k w' v' in
    let switched = create_switch_response-IsWindow k w' v' in ground (arith, v'.response.arguments)

process-IsWindow :
    (k : Kernel) (w : Window) (code : ℕ) → code < 256 → IsWindow w → IsWindow (process k (w, code))
unfolding process
process-IsWindow k w code h v =
    let live = dispatch-IsWindow k w v in ground (arith, v.response.arguments)

create_link_response-codes :
    (k : Kernel) (w : Window)
    → let u = create_link_response k w in
      (u.response.command_code ≡ w.response.command_code)
      × (u.response.response_code ≡ ok → u.response.arguments_size ≡ 2)
unfolding create_link_response
create_link_response-codes k w = ground arith

create_switch_response-code :
    (k : Kernel) (w : Window)
    → (create_switch_response k w).response.command_code ≡ w.response.command_code
unfolding create_switch_response
create_switch_response-code k w = ground arith

create_info_response-codes :
    (k : Kernel) (w : Window)
    → let u = create_info_response k w in
      (u.response.command_code ≡ w.response.command_code) × (u.response.arguments_size ≡ 2)
unfolding create_info_response
create_info_response-codes k w = (refl, refl)

-- An answer with `OK` has what its command announces.
dispatch-IsSendable :
    (k : Kernel) (w : Window)
    → IsWindow w
    → (dispatch k w).response.response_code ≡ ok
    → IsSendable (dispatch k w).response
unfolding dispatch
dispatch-IsSendable k w v =
    let c = w.request.command_code in
    let w' = record w { response = record w.response { command_code = c; response_code = ok } } in
    let link = create_link_response-codes k w' in
    let switched = create_switch_response-code k w' in
    let asked = create_info_response-codes k w' in
    let byte : c < 256 = v.request.command_code in
    elim (Bool-cases (is_info c)) [
      | inl h ↦ rw h (λ fine.
          filled-IsSendable (create_info_response k w').response (omega (arith, asked.0, byte))
            (ground (arith, asked.0, h)) (ground (arith, fine)) (omega (arith, asked.1)))
      | inr n ↦ elim (Bool-cases (is_link c)) [
        | inl h ↦
            rw (n, h)
              (λ fine.
                filled-IsSendable (create_link_response k w').response (omega (arith, link.0, byte))
                  (ground (arith, link.0, h)) (ground (arith, fine)) (omega (arith, link.1 fine)))
        | inr n' ↦ elim (Bool-cases (is_switch c)) [
          | inl h ↦
              rw (n, n', h)
                (λ _.
                  bare-IsSendable (create_switch_response k w').response
                    (omega (arith, switched, byte)) (ground (arith, switched, h)))
          | inr n'' ↦ elim (Bool-cases (is_delete c)) [
            | inl h ↦ rw (n, n', n'', h) (λ _. bare-IsSendable w'.response byte (ground (arith, h)))
            | inr none_left ↦ rw (n, n', n'', none_left) (λ fine. absurd (ground (arith, fine)))
          ]
        ]
      ]
    ]

process-IsSendable :
    (k : Kernel) (w : Window) (code : ℕ)
    → IsWindow w
    → (process k (w, code)).response.response_code ≡ ok
    → IsSendable (process k (w, code)).response
unfolding process
process-IsSendable k w code v = elim (Bool-cases (is_error code)) [
  | inl bad ↦ rw bad (λ fine. absurd (ground (arith, bad, fine)))
  | inr good ↦ elim (Bool-cases (w.request.destination == w.id)) [
    | inl ours ↦ rw (good, ours) (dispatch-IsSendable k w v)
    | inr other ↦ rw (good, other) (λ fine. absurd (ground (arith, fine)))
  ]
]

-- What a step sends: one response with the bytes of the buffer, or one error if it cannot be written.
abbrev pub Sends : Kernel → Window → List Effect → Type 0
Sends k u effects =
    effects
    ≡ (if k.written u.snd_responses_fd u.buffer_write
        then wrote u.snd_responses_fd u.buffer_write
        else printed unable_to_write_pipe)
      ∷ []

write_pipe-Sends :
    (k : Kernel) (w : Window)
    → IsWindow w
    → let (u, effects) = write_pipe k w in
      IsWindow u
      × (u.response ≡ w.response)
      × (u.buffer_write ≡ (format_response w.response w.buffer_write max_response_size).0)
      × Sends k u effects
unfolding write_pipe
write_pipe-Sends k w v =
    let fine = parse_response-head w.response w.response w.buffer_write v.response v.buffer in
    let same = length-format_response w.response w.buffer_write max_response_size in
    ground (arith, v.response.arguments)

-- After any request, and any answer of the system, a well-formed window is well formed, and has sent exactly
-- one response or printed the one error that the pipe to the parent cannot be written. The bytes sent are
-- its response: whoever parses them gets the response back, if it has the arguments that its command
-- announces, and it has them wherever it is answered with `OK`.
pub window_answers :
    (k : Kernel) (reading : Reading) (w : Window)
    → IsWindow w
    → let (u, code, effects) = execute_command k reading w in
      IsWindow u
      × Sends k u effects
      × ((old : Response)
          → IsSendable u.response
          → length old.arguments ≡ max_response_arguments
          → parse_response old u.buffer_write max_response_size ≡ (received old u.response, ok))
      × (u.response.response_code ≡ ok → IsSendable u.response)
unfolding execute_command
window_answers k reading w v =
    let w' = record w { response = record w.response { arguments_size = 0 } } in
    let v' : IsWindow w' = ground (arith, v.response.arguments) in
    let (w'', code) = read_pipe reading w' in
    let v'' =
      process-IsWindow k w'' code (read_pipe-code reading w') (read_pipe-IsWindow reading w' v') in
    let (valid, same, bytes, sends) = write_pipe-Sends k (process k (w'', code)) v'' in
    (
      valid,
      sends,
      λ old s cells.
          rw (bytes, same)
            (parse_response-format_response old (process k (w'', code)).response
              (process k (w'', code)).buffer_write v''.response (rw same at s) cells v''.buffer).1,
      λ fine. subst IsSendable (sym same) (
          process-IsSendable k w'' code (read_pipe-IsWindow reading w' v')
            (sym (ap (λ r. r.response_code) same) ∙ fine)),
    )
