-- ===== src/Messages/Responses.antt =====
-- Responses written and read back.
use os_domotics.Commands.{is_info, max_response_arguments, max_response_size}
use os_domotics.Messages.{
  Response, format_arguments, format_response, may_have_arguments, needs_arguments, parse_arguments,
  parse_response, parse_response_arguments, response_head,
}
use os_domotics.Messages.Joined.{
  IsInt, joined, joined-Lacks, joined-append, length-spaced, next_unsigned-joined, spaced,
  strtok-joined, strtok-nil,
}
use os_domotics.Prelude.{
  All, All-take, Bytes, List, [], ap, append-nil, append_assoc, arith, drop, drop-length_append,
  false, get_or-append, length, length-append, length-drop, length-take, refl, set, set-append, suc,
  sym, take, take-append-drop, take-length_append, true, u16, u8, zero, ℕ, ◌++◌, ◌+◌, ◌-◌, ◌<◌, ◌∙◌,
  ◌∷◌, ◌≡◌, ◌≤◌,
}
use os_domotics.ReturnCodes.{is_error, ok, response_format_error}
use os_domotics.Text.{overwrite, print_unsigned, space}
use os_domotics.Text.Buffers.{c_string-append, snprintf_fits, string_length-append}
use os_domotics.Text.Decimal.{length-print_unsigned, string_to_unsigned-print_unsigned}

abbrev pub IsWord : ℕ → Type 0
IsWord n = n < 65536

pub record IsResponse (r : Response) : Type 0 where
  pub source : IsWord r.source
  pub command_code : r.command_code < 256
  pub response_code : r.response_code < 256
  pub cells : length r.arguments ≡ max_response_arguments
  pub arguments_size : r.arguments_size ≤ max_response_arguments
  pub arguments : All IsWord r.arguments

-- The arguments that are sent.
abbrev pub sent : Response → List ℕ
sent r = take r.arguments_size r.arguments

abbrev pub head_numbers : Response → List ℕ
head_numbers r = r.source ∷ r.command_code ∷ r.response_code ∷ []

response_head-joined : (r : Response) → response_head r ≡ joined (head_numbers r)
response_head-joined r = rw append-nil

-- The bound that the header of messages.h derives: 5 + 3 + 3 digits and two spaces.
length-response_head : (r : Response) → IsResponse r → length (response_head r) ≤ 13
length-response_head r v = omega (
  arith,
  length-append (print_unsigned r.source)
      (space ∷ (print_unsigned r.command_code ++ (space ∷ print_unsigned r.response_code))),
  length-append (print_unsigned r.command_code) (space ∷ print_unsigned r.response_code),
  length-print_unsigned r.source 4 (omega arith),
  length-print_unsigned r.command_code 2 (omega arith),
  length-print_unsigned r.response_code 2 (omega arith),
)

-- One round of the loop of `format_response`: the next argument is written behind the text.
format_arguments_step :
    (left x : ℕ) (before tail : List ℕ) (text junk : Bytes) (remaining : ℕ)
    → remaining ≡ length junk + 1
    → length (print_unsigned x) + 1 < remaining
    → let t = space ∷ print_unsigned x in
      format_arguments
        (suc left)
        (length before)
        (before ++ x ∷ tail)
        (length text)
        remaining
        (text ++ 0 ∷ junk)
      ≡ format_arguments left
          (length (before ++ x ∷ []))
          ((before ++ x ∷ []) ++ tail)
          (length (text ++ t))
          (remaining - length t)
          ((text ++ t) ++ 0 ∷ drop (length t + 1) (0 ∷ junk))
unfolding format_arguments
format_arguments_step left x before tail text junk remaining e h =
    rw
      (
        get_or-append before tail x 0,
        take-length_append text (0 ∷ junk),
        drop-length_append text (0 ∷ junk),
        snprintf_fits remaining (space ∷ print_unsigned x) (0 ∷ junk) (omega arith) (omega arith),
        length-append before (x ∷ []),
        length-append text (space ∷ print_unsigned x),
        append_assoc before (x ∷ []) tail,
        append_assoc text (space ∷ print_unsigned x),
      )
      (ground arith)

-- The loop of `format_response` writes the arguments behind the text that is there.
format_arguments-spaced :
    (xs before after : List ℕ) (text junk : Bytes) (remaining : ℕ)
    → remaining ≡ length junk + 1
    → length (spaced xs) < remaining
    → (junk' : Bytes) × (format_arguments
          (length xs)
          (length before)
          (before ++ (xs ++ after))
          (length text)
          remaining
          (text ++ 0 ∷ junk)
        ≡ (text ++ (spaced xs ++ 0 ∷ junk'), ok))
format_arguments-spaced [] before after text junk remaining e h =
    (junk, unfold format_arguments in ground (arith, set-append text junk 0 0))
format_arguments-spaced (x ∷ xs) before after text junk remaining e h =
    let t : Bytes = space ∷ print_unsigned x in
    let rest : Bytes = drop (length t + 1) (0 ∷ junk) in
    let total = length-append (print_unsigned x) (spaced xs) in
    let left = length-drop (length t + 1) (0 ∷ junk) in
    let (junk', run) =
      format_arguments-spaced xs (before ++ x ∷ []) after (text ++ t) rest (remaining - length t)
        (omega arith) (omega arith) in
    (
      junk',
      format_arguments_step (length xs) x before (xs ++ after) text junk remaining e (omega arith)
          ∙ run
          ∙ ap (λ l. (l, ok)) (regroup text x (spaced xs) (0 ∷ junk')),
    )
  where
    regroup :
        (text : Bytes) (x : ℕ) (s rest : Bytes)
        → (text ++ space ∷ print_unsigned x) ++ (s ++ rest)
          ≡ text ++ ((space ∷ (print_unsigned x ++ s)) ++ rest)
    regroup text x s rest = simp append_assoc

-- A formatted response fits in its buffer, and its text is what stands before the terminator.
format_response-joined :
    (r : Response) (buffer : Bytes)
    → IsResponse r
    → length buffer ≡ max_response_size
    → (junk : Bytes) × (format_response r buffer max_response_size
        ≡ (joined (head_numbers r ++ sent r) ++ 0 ∷ junk, ok))
unfolding format_response
format_response-joined r buffer v fits =
    let head = response_head r in
    let short = length-response_head r v in
    let junk : Bytes = drop (length head + 1) buffer in
    let left = length-drop (length head + 1) buffer in
    let count = length-take r.arguments_size r.arguments (omega arith) in
    let words = All-take IsWord r.arguments_size r.arguments v.arguments in
    let (junk', run) =
      format_arguments-spaced (sent r) [] (drop r.arguments_size r.arguments) head junk
        (max_response_size - length head) (omega arith)
        (omega (arith, length-spaced (sent r) words)) in
    let run' = rw (count, take-append-drop r.arguments_size r.arguments) at run in
    (
      junk',
      ground (arith, snprintf_fits max_response_size head buffer (omega arith) (omega arith), run')
          ∙ ap (λ l. (l, ok)) (regroup r (sent r) (0 ∷ junk')),
    )
  where
    regroup :
        (r : Response) (xs : List ℕ) (rest : Bytes)
        → response_head r ++ (spaced xs ++ rest) ≡ joined (head_numbers r ++ xs) ++ rest
    regroup r xs rest = rw (response_head-joined r) (
        sym (append_assoc (joined (head_numbers r)) (spaced xs) rest)
        ∙ ap (λ l. l ++ rest) (joined-append r.source (r.command_code ∷ r.response_code ∷ []) xs))

-- The three numbers that every response begins with.
parse_response-joined :
    (old : Response) (s c e : ℕ) (rest : List ℕ) (junk : Bytes) (size : ℕ)
    → IsInt s
    → IsInt c
    → IsInt e
    → length (joined (s ∷ c ∷ e ∷ rest)) < size
    → parse_response old (joined (s ∷ c ∷ e ∷ rest) ++ 0 ∷ junk) size
      ≡ parse_response_arguments c (joined rest) (record old {
        source = u16 s;
        command_code = u8 c;
        response_code = u8 e;
        arguments_size = 0;
      })
unfolding parse_response
parse_response-joined old s c e rest junk size hs hc he h = ground (
  arith,
  string_length-append (joined (s ∷ c ∷ e ∷ rest)) junk size (joined-Lacks (s ∷ c ∷ e ∷ rest)) h,
  c_string-append (joined (s ∷ c ∷ e ∷ rest)) junk (joined-Lacks (s ∷ c ∷ e ∷ rest)),
  next_unsigned-joined s (c ∷ e ∷ rest) hs,
  next_unsigned-joined c (e ∷ rest) hc,
  next_unsigned-joined e rest he,
)

parse_arguments_step :
    (left i x x' : ℕ) (xs : List ℕ) (r : Response)
    → IsInt x
    → parse_arguments (suc left) i (print_unsigned x) (joined (x' ∷ xs)) r
      ≡ parse_arguments left
          (i + 1)
          (print_unsigned x')
          (joined xs)
          (record r { arguments = set r.arguments i (u16 x) })
unfolding parse_arguments
parse_arguments_step left i x x' xs r h =
    rw (string_to_unsigned-print_unsigned x h, parse_arguments)
      (rw (strtok-joined x' xs, parse_arguments) refl)

-- The loop of `parse_response` stores the arguments from the front of the cells that are left.
parse_arguments-joined :
    (left x : ℕ) (xs done cells : List ℕ) (r : Response)
    → length (x ∷ xs) ≤ left
    → length (x ∷ xs) ≤ length cells
    → All IsWord (x ∷ xs)
    → r.arguments ≡ done ++ cells
    → parse_arguments left (length done) (print_unsigned x) (joined xs) r ≡ (
      record r {
        arguments = done ++ overwrite (x ∷ xs) cells;
        arguments_size = length done + length (x ∷ xs);
      },
      ok,
    )
unfolding overwrite
parse_arguments-joined zero x xs done cells r h k w e = absurd (omega arith)
parse_arguments-joined (suc left) x xs done [] r h k w e = absurd (omega arith)
parse_arguments-joined (suc left) x [] done (y ∷ cells) r h k w e =
    unfold parse_arguments in
    ground (
      arith,
      string_to_unsigned-print_unsigned x (omega arith),
      strtok-nil,
      set-append done cells y x,
    )
parse_arguments-joined (suc left) x (x' ∷ xs) done (y ∷ cells) r h k w e =
    let r' = record r { arguments = set r.arguments (length done) (u16 x) } in
    let stored : r'.arguments ≡ (done ++ x ∷ []) ++ cells =
      ground (arith, set-append done cells y x, append_assoc done (x ∷ []) cells) in
    let ih = rw (length-append done (x ∷ [])) at (
      parse_arguments-joined left x' xs (done ++ x ∷ []) cells r' (omega arith) (omega arith) w.1
        stored) in
    parse_arguments_step left (length done) x x' xs r (omega arith)
    ∙ ih
    ∙ ground (arith, append_assoc done (x ∷ []) (overwrite (x' ∷ xs) cells))

-- A parser asks for the arguments that a response has: at least one where its command announces them, at
-- least two for an `INFO` without error, and none where its command has none.
pub record IsSendable (r : Response) : Type 0 where
  pub announced : needs_arguments r.command_code r ≡ true → 0 < r.arguments_size
  pub unannounced :
      needs_arguments r.command_code r ≡ false → may_have_arguments r ≡ false → r.arguments_size ≡ 0
  pub info : is_info r.command_code ≡ true → is_error r.response_code ≡ false → 2 ≤ r.arguments_size

-- What a parser gives for the text of a response: the cells behind the sent arguments are the old ones.
abbrev pub received : Response → Response → Response
received old r = record r { arguments = overwrite (sent r) old.arguments }

parse_response_arguments-joined :
    (c : ℕ) (xs : List ℕ) (old r : Response)
    → c ≡ r.command_code
    → IsSendable r
    → xs ≡ sent r
    → length xs ≡ r.arguments_size
    → r.arguments_size ≤ max_response_arguments
    → All IsWord xs
    → length old.arguments ≡ max_response_arguments
    → parse_response_arguments c
        (joined xs)
        (record r { arguments = old.arguments; arguments_size = 0 })
      ≡ (received old r, ok)
unfolding parse_response_arguments overwrite
parse_response_arguments-joined c [] old r ec s e n v w cells = ground (arith, strtok-nil, s)
parse_response_arguments-joined c (x ∷ xs) old r ec s e n v w cells = ground (
  arith,
  s,
  strtok-joined x xs,
  parse_arguments-joined max_response_arguments x xs [] old.arguments
      (record r { arguments = old.arguments; arguments_size = 0 }) (omega arith) (omega arith) w
      refl,
)

length-response : (r : Response) → IsResponse r → length (joined (head_numbers r ++ sent r)) ≤ 49
length-response r v =
    let words = All-take IsWord r.arguments_size r.arguments v.arguments in
    let count = length-take r.arguments_size r.arguments (omega arith) in
    rw (← joined-append r.source (r.command_code ∷ r.response_code ∷ []) (sent r)) (
      rw (← response_head-joined r) (
        omega (
          arith,
          length-append (response_head r) (spaced (sent r)),
          length-response_head r v,
          length-spaced (sent r) words,
        )))

-- The head of any formatted response is read back, and its arguments are left to the second part.
pub parse_response-head :
    (old r : Response) (buffer : Bytes)
    → IsResponse r
    → length buffer ≡ max_response_size
    → ((format_response r buffer max_response_size).1 ≡ ok)
      × (parse_response old (format_response r buffer max_response_size).0 max_response_size
          ≡ parse_response_arguments r.command_code
              (joined (sent r))
              (record r { arguments = old.arguments; arguments_size = 0 }))
parse_response-head old r buffer v fits =
    let (junk, run) = format_response-joined r buffer v fits in
    (
      ap (λ p. p.1) run,
      rw run (
          parse_response-joined old r.source r.command_code r.response_code (sent r) junk
            max_response_size (omega arith) (omega arith) (omega arith)
            (omega (arith, length-response r v))
          ∙ ap (parse_response_arguments r.command_code (joined (sent r))) (same old r v)),
    )
  where
    same :
        (old r : Response)
        → IsResponse r
        → record old {
          source = u16 r.source;
          command_code = u8 r.command_code;
          response_code = u8 r.response_code;
          arguments_size = 0;
        }
          ≡ record r { arguments = old.arguments; arguments_size = 0 }
    same old r v = ground arith

-- A formatted response always fits. If it has the arguments that its command announces, it is read back:
-- the parser gives the response, with the sent arguments in front of the old cells, whatever the two
-- buffers and the old response held before.
pub parse_response-format_response :
    (old r : Response) (buffer : Bytes)
    → IsResponse r
    → IsSendable r
    → length old.arguments ≡ max_response_arguments
    → length buffer ≡ max_response_size
    → ((format_response r buffer max_response_size).1 ≡ ok)
      × (parse_response old (format_response r buffer max_response_size).0 max_response_size
          ≡ (received old r, ok))
parse_response-format_response old r buffer v s cells fits =
    let (fine, run) = parse_response-head old r buffer v fits in
    (
      fine,
      run
          ∙ parse_response_arguments-joined r.command_code (sent r) old r refl s refl
              (length-take r.arguments_size r.arguments (omega arith)) v.arguments_size
              (All-take IsWord r.arguments_size r.arguments v.arguments) cells,
    )

-- A response that has no argument although its command announces some is formatted without an error, and
-- then refused by every parser with `RESPONSE_FORMAT_ERROR`.
pub parse_response-unannounced :
    (old r : Response) (buffer : Bytes)
    → IsResponse r
    → needs_arguments r.command_code r ≡ true
    → r.arguments_size ≡ 0
    → length buffer ≡ max_response_size
    → ((format_response r buffer max_response_size).1 ≡ ok)
      × ((parse_response old (format_response r buffer max_response_size).0 max_response_size).1
          ≡ response_format_error)
parse_response-unannounced old r buffer v needs none_sent fits =
    let (fine, run) = parse_response-head old r buffer v fits in
    (fine, rw run (refused (sent r) old r needs (rw none_sent)))
  where
    refused :
        (xs : List ℕ) (old r : Response)
        → needs_arguments r.command_code r ≡ true
        → xs ≡ []
        → (parse_response_arguments r.command_code
            (joined xs)
            (record r { arguments = old.arguments; arguments_size = 0 })).1
          ≡ response_format_error
    refused xs old r needs e = rw e (unfold parse_response_arguments in ground (arith, strtok-nil))
