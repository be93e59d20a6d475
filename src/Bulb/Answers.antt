-- ===== src/Bulb/Answers.antt =====
-- Every request is answered, and which answers can be read.
use os_domotics.Bulb.{
  Bulb, change_parent, create_info_response, create_link_response, create_switch_response, dispatch,
  execute_command, minutes_on, process, read_pipe, write_pipe,
}
use os_domotics.Commands.{
  is_delete, is_info, is_link, is_switch, link_change_parent, link_subcommand, max_request_size,
  max_response_arguments, max_response_size, null_command,
}
use os_domotics.Devices.{bulb_device}
use os_domotics.Messages.{Response, format_response, parse_response}
use os_domotics.Messages.Bounds.{
  All-set, length-format_response, parse_request-IsRequest, parse_request-code,
}
use os_domotics.Messages.Requests.{IsRequest}
use os_domotics.Messages.Responses.{
  IsResponse, IsSendable, IsWord, parse_response-format_response, parse_response-head, received,
}
use os_domotics.Messages.Sendable.{bare-IsSendable, filled-IsSendable}
use os_domotics.Prelude.{
  All, Bool-cases, List, [], ap, arith, if◌then◌else◌, inl, inr, int_u16, length, length-set,
  negsuc, pos, refl, set, subst, sym, u16, ℕ, ℤ, ◌<◌, ◌==◌, ◌∙◌, ◌∷◌, ◌≡◌, ◌≤◌,
}
use os_domotics.ReturnCodes.{is_error, ok, unable_to_write_pipe}
use os_domotics.Utils.{Effect, Kernel, Reading, failed, got, printed, wrote}
use os_domotics.Utils.Pipes.{change_snd_responses_pipe-code}

pub record IsBulb (b : Bulb) : Type 0 where
  pub state : b.state ≤ 1
  pub request : IsRequest b.request
  pub response : IsResponse b.response
  pub buffer : length b.buffer_write ≡ max_response_size

read_pipe-IsBulb : (reading : Reading) (b : Bulb) → IsBulb b → IsBulb (read_pipe reading b).0
unfolding read_pipe
read_pipe-IsBulb failed b v = v
read_pipe-IsBulb (got size buffer) b v =
    let parsed = parse_request-IsRequest b.request buffer max_request_size v.request in ground arith

read_pipe-code : (reading : Reading) (b : Bulb) → (read_pipe reading b).1 < 256
unfolding read_pipe
read_pipe-code failed b = omega arith
read_pipe-code (got size buffer) b =
    ground (arith, parse_request-code b.request buffer max_request_size)

abbrev stored : List ℕ → ℕ → ℕ → List ℕ
stored xs x y = set (set xs 0 x) 1 y

stored-IsWord :
    (xs : List ℕ) (x y : ℕ) → All IsWord xs → IsWord x → IsWord y → All IsWord (stored xs x y)
stored-IsWord xs x y h hx hy = All-set (set xs 0 x) 1 y (All-set xs 0 x h hx) hy

length-stored : (xs : List ℕ) (x y : ℕ) → length (stored xs x y) ≡ length xs
length-stored xs x y = length-set (set xs 0 x) 1 y ∙ length-set xs 0 x

minutes-IsWord : (z : ℤ) → IsWord (int_u16 z)
minutes-IsWord (pos n) = omega arith
minutes-IsWord (negsuc n) = omega arith

create_info_response-IsBulb : (k : Kernel) (b : Bulb) → IsBulb b → IsBulb (create_info_response k b)
unfolding create_info_response
create_info_response-IsBulb k b v =
    let words =
      stored-IsWord b.response.arguments (u16 b.state) (minutes_on k b) v.response.arguments
        (omega arith) (minutes-IsWord _) in
    let cells = length-stored b.response.arguments (u16 b.state) (minutes_on k b) in
    record {
      state = v.state;
      request = v.request;
      response = record {
        source = v.response.source;
        command_code = v.response.command_code;
        response_code = v.response.response_code;
        cells = cells ∙ v.response.cells;
        arguments_size = omega arith;
        arguments = words;
      };
      buffer = v.buffer;
    }

change_parent-IsBulb :
    (k : Kernel) (parent : ℕ) (b : Bulb) → IsBulb b → IsBulb (change_parent k parent b)
change_parent-IsBulb k parent b v =
    let code = change_snd_responses_pipe-code k parent b.snd_responses_fd in
    elim (Bool-cases (b.parent_id == parent)) [
      | inl same ↦ rw same v
      | inr other ↦ rw other (ground (arith, v.response.arguments))
    ]

create_link_response-IsBulb : (k : Kernel) (b : Bulb) → IsBulb b → IsBulb (create_link_response k b)
unfolding create_link_response
create_link_response-IsBulb k b v =
    let words =
      stored-IsWord b.response.arguments (u16 b.request.argument) bulb_device v.response.arguments
        (omega arith) (omega arith) in
    let cells = length-stored b.response.arguments (u16 b.request.argument) bulb_device in
    elim (Bool-cases (link_subcommand b.request.command_code == link_change_parent)) [
      | inl change ↦ rw change (
          change_parent-IsBulb k b.request.argument _ (record {
            state = v.state;
            request = v.request;
            response = record {
              source = v.response.source;
              command_code = v.response.command_code;
              response_code = v.response.response_code;
              cells = cells ∙ v.response.cells;
              arguments_size = omega arith;
              arguments = words;
            };
            buffer = v.buffer;
          }))
      | inr other ↦ rw other (ground (arith, v.response.arguments))
    ]

create_switch_response-IsBulb :
    (k : Kernel) (b : Bulb) → IsBulb b → IsBulb (create_switch_response k b)
unfolding create_switch_response
create_switch_response-IsBulb k b v = ground (arith, v.response.arguments)

dispatch-IsBulb : (k : Kernel) (b : Bulb) → IsBulb b → IsBulb (dispatch k b)
unfolding dispatch
dispatch-IsBulb k b v =
    let b' = record b {
      response = record b.response { command_code = b.request.command_code; response_code = ok };
    } in
    let v' : IsBulb b' = ground (arith, v.response.arguments) in
    let info = create_info_response-IsBulb k b' v' in
    let link = create_link_response-IsBulb k b' v' in
    let switched = create_switch_response-IsBulb k b' v' in ground (arith, v'.response.arguments)

process-IsBulb :
    (k : Kernel) (b : Bulb) (code : ℕ) → code < 256 → IsBulb b → IsBulb (process k (b, code))
unfolding process
process-IsBulb k b code h v =
    let live = dispatch-IsBulb k b v in ground (arith, v.response.arguments)

create_link_response-codes :
    (k : Kernel) (b : Bulb)
    → let u = create_link_response k b in
      (u.response.command_code ≡ b.response.command_code)
      × (u.response.response_code ≡ ok → u.response.arguments_size ≡ 2)
unfolding create_link_response
create_link_response-codes k b = ground arith

create_switch_response-code :
    (k : Kernel) (b : Bulb)
    → (create_switch_response k b).response.command_code ≡ b.response.command_code
unfolding create_switch_response
create_switch_response-code k b = ground arith

create_info_response-codes :
    (k : Kernel) (b : Bulb)
    → let u = create_info_response k b in
      (u.response.command_code ≡ b.response.command_code) × (u.response.arguments_size ≡ 2)
unfolding create_info_response
create_info_response-codes k b = (refl, refl)

-- An answer with `OK` has what its command announces.
dispatch-IsSendable :
    (k : Kernel) (b : Bulb)
    → IsBulb b
    → (dispatch k b).response.response_code ≡ ok
    → IsSendable (dispatch k b).response
unfolding dispatch
dispatch-IsSendable k b v =
    let c = b.request.command_code in
    let b' = record b { response = record b.response { command_code = c; response_code = ok } } in
    let link = create_link_response-codes k b' in
    let switched = create_switch_response-code k b' in
    let asked = create_info_response-codes k b' in
    let byte : c < 256 = v.request.command_code in
    elim (Bool-cases (is_info c)) [
      | inl h ↦ rw h (λ fine.
          filled-IsSendable (create_info_response k b').response (omega (arith, asked.0, byte))
            (ground (arith, asked.0, h)) (ground (arith, fine)) (omega (arith, asked.1)))
      | inr n ↦ elim (Bool-cases (is_link c)) [
        | inl h ↦
            rw (n, h)
              (λ fine.
                filled-IsSendable (create_link_response k b').response (omega (arith, link.0, byte))
                  (ground (arith, link.0, h)) (ground (arith, fine)) (omega (arith, link.1 fine)))
        | inr n' ↦ elim (Bool-cases (is_switch c)) [
          | inl h ↦
              rw (n, n', h)
                (λ _.
                  bare-IsSendable (create_switch_response k b').response
                    (omega (arith, switched, byte)) (ground (arith, switched, h)))
          | inr n'' ↦ elim (Bool-cases (is_delete c)) [
            | inl h ↦ rw (n, n', n'', h) (λ _. bare-IsSendable b'.response byte (ground (arith, h)))
            | inr none_left ↦ rw (n, n', n'', none_left) (λ fine. absurd (ground (arith, fine)))
          ]
        ]
      ]
    ]

process-IsSendable :
    (k : Kernel) (b : Bulb) (code : ℕ)
    → IsBulb b
    → (process k (b, code)).response.response_code ≡ ok
    → IsSendable (process k (b, code)).response
unfolding process
process-IsSendable k b code v = elim (Bool-cases (is_error code)) [
  | inl bad ↦ rw bad (λ fine. absurd (ground (arith, bad, fine)))
  | inr good ↦ elim (Bool-cases (b.request.destination == b.id)) [
    | inl ours ↦ rw (good, ours) (dispatch-IsSendable k b v)
    | inr other ↦ rw (good, other) (λ fine. absurd (ground (arith, fine)))
  ]
]

-- What a step sends: one response with the bytes of the buffer, or one error if it cannot be written.
abbrev pub Sends : Kernel → Bulb → List Effect → Type 0
Sends k u effects =
    effects
    ≡ (if k.written u.snd_responses_fd u.buffer_write
        then wrote u.snd_responses_fd u.buffer_write
        else printed unable_to_write_pipe)
      ∷ []

write_pipe-Sends :
    (k : Kernel) (b : Bulb)
    → IsBulb b
    → let (u, effects) = write_pipe k b in
      IsBulb u
      × (u.response ≡ b.response)
      × (u.buffer_write ≡ (format_response b.response b.buffer_write max_response_size).0)
      × Sends k u effects
unfolding write_pipe
write_pipe-Sends k b v =
    let fine = parse_response-head b.response b.response b.buffer_write v.response v.buffer in
    let same = length-format_response b.response b.buffer_write max_response_size in
    ground (arith, v.response.arguments)

-- After any request, and any answer of the system, a well-formed bulb is well formed, and has sent exactly
-- one response or printed the one error that the pipe to the parent cannot be written. The bytes sent are
-- its response: whoever parses them gets the response back, if it has the arguments that its command
-- announces, and it has them wherever it is answered with `OK`.
pub execute_command-answers :
    (k : Kernel) (reading : Reading) (b : Bulb)
    → IsBulb b
    → let (u, code, effects) = execute_command k reading b in
      IsBulb u
      × Sends k u effects
      × ((old : Response)
          → IsSendable u.response
          → length old.arguments ≡ max_response_arguments
          → parse_response old u.buffer_write max_response_size ≡ (received old u.response, ok))
      × (u.response.response_code ≡ ok → IsSendable u.response)
unfolding execute_command
execute_command-answers k reading b v =
    let b' = record b {
      response = record b.response { command_code = null_command; arguments_size = 0 };
    } in
    let v' : IsBulb b' = ground (arith, v.response.arguments) in
    let (b'', code) = read_pipe reading b' in
    let v'' =
      process-IsBulb k b'' code (read_pipe-code reading b') (read_pipe-IsBulb reading b' v') in
    let (valid, same, bytes, sends) = write_pipe-Sends k (process k (b'', code)) v'' in
    (
      valid,
      sends,
      λ old s cells.
          rw (bytes, same)
            (parse_response-format_response old (process k (b'', code)).response
              (process k (b'', code)).buffer_write v''.response (rw same at s) cells v''.buffer).1,
      λ fine. subst IsSendable (sym same) (
          process-IsSendable k b'' code (read_pipe-IsBulb reading b' v')
            (sym (ap (λ r. r.response_code) same) ∙ fine)),
    )
