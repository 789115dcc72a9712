-- ===== src/Zabbix/Chunks.antt =====
-- `_chunk_output` of webhook.py: the output of a run in messages that Zabbix takes.
use seyal_run.Prelude.{
  ℕ, zero, suc, ◌+◌, ◌≤◌, String, ◌≡◌, inl, inr, false, not, ◌&&◌, List, [], ◌∷◌, ◌++◌, arith, ◌==◌,
  ltb, leb, if◌then◌else◌, Bool-cases, length, All, text_length, append, cut, cut_off,
  text_length-append, text_length-cut, text_length-cut_off,
}

abbrev pub msg_limit : ℕ
msg_limit = 1900

abbrev pub max_postback_chunks : ℕ
max_postback_chunks = 25

-- The chunks so far, the buffer and what is left of the line.
abbrev pub Packing : Type 0
Packing = List String × String × String

abbrev pub flush : List String → String → List String
flush chunks buf = if buf == "" then chunks else chunks ++ buf ∷ []

-- The inner loop, on fuel: each turn takes `msg_limit` characters off the line.
abbrev pub split_long : ℕ → Packing → Packing
split_long zero (chunks, buf, ln) = (chunks, buf, ln)
split_long (suc n) (chunks, buf, ln) =
    let rest = split_long n (flush chunks buf ++ cut msg_limit ln ∷ [], "", cut_off msg_limit ln) in
    if ltb msg_limit (text_length ln) then rest else (chunks, buf, ln)

abbrev pub joined_line : String → String → String
joined_line buf ln = if buf == "" then ln else append buf (append "\n" ln)

-- One line into the buffer, or into a new one.
unfoldable pub add_line : List String → String → String → List String × String
add_line chunks buf ln =
    if ltb msg_limit (text_length buf + text_length ln + 1)
    then (chunks ++ buf ∷ [], ln)
    else (chunks, joined_line buf ln)

unfoldable pub pack_line : List String → String → String → List String × String
unfolding add_line
pack_line chunks buf ln =
    let p = split_long (text_length ln) (chunks, buf, ln) in add_line p.0 p.1 p.2

abbrev pub last_chunk : List String → String → List String
last_chunk chunks buf =
    if not (buf == "") && ltb (length chunks) max_postback_chunks
    then chunks ++ buf ∷ []
    else chunks

-- The outer loop, that ends early when the chunks are enough.
unfoldable pub chunk_from : List String → String → List String → List String
unfolding pack_line
chunk_from chunks buf [] = last_chunk chunks buf
chunk_from chunks buf (ln ∷ lines) =
    let p = pack_line chunks buf ln in
    let rest = chunk_from p.0 p.1 lines in
    if leb max_postback_chunks (length p.0) then last_chunk p.0 p.1 else rest

unfoldable pub chunk_output : List String → List String
unfolding chunk_from
chunk_output lines = chunk_from [] "" lines

abbrev Fits : String → Type 0
Fits s = text_length s ≤ msg_limit

All-append : (P : String → Type 0) (xs ys : List String) → All P xs → All P ys → All P (xs ++ ys)
All-append P [] ys h k = k
All-append P (x ∷ xs) ys (p, h) k = (p, All-append P xs ys h k)

flush-Fits :
    (chunks : List String) (buf : String) → All Fits chunks → Fits buf → All Fits (flush chunks buf)
flush-Fits chunks buf h b = elim (Bool-cases (buf == "")) [
  | inl e ↦ rw e h
  | inr e ↦ rw e (All-append Fits chunks (buf ∷ []) h (b, tt))
]

-- The fuel is enough: what is left of the line fits.
split-Fits :
    (n : ℕ) (chunks : List String) (buf ln : String)
    → text_length ln ≤ n + msg_limit
    → All Fits chunks
    → Fits buf
    → let p = split_long n (chunks, buf, ln) in All Fits p.0 × Fits p.1 × Fits p.2
split-Fits zero chunks buf ln h a b = (a, b, omega (arith, h))
split-Fits (suc n) chunks buf ln h a b = elim (Bool-cases (ltb msg_limit (text_length ln))) [
  | inr e ↦ rw e (a, b, ground (arith, e))
  | inl e ↦ rw e (
      split-Fits n (flush chunks buf ++ cut msg_limit ln ∷ []) "" (cut_off msg_limit ln)
        (omega (arith, h, text_length-cut_off msg_limit ln))
        (All-append Fits (flush chunks buf) (cut msg_limit ln ∷ []) (flush-Fits chunks buf a b)
          (text_length-cut msg_limit ln, tt))
        (omega arith))
]

joined-Fits :
    (buf ln : String)
    → ltb msg_limit (text_length buf + text_length ln + 1) ≡ false
    → Fits (joined_line buf ln)
joined-Fits buf ln h = elim (Bool-cases (buf == "")) [
  | inl e ↦ rw e (ground (arith, h))
  | inr e ↦
      rw e (ground (arith, h, text_length-append buf (append "\n" ln), text_length-append "\n" ln))
]

add-Fits :
    (chunks : List String) (buf ln : String)
    → All Fits chunks
    → Fits buf
    → Fits ln
    → All Fits (add_line chunks buf ln).0 × Fits (add_line chunks buf ln).1
unfolding add_line
add-Fits chunks buf ln a b c =
    elim (Bool-cases (ltb msg_limit (text_length buf + text_length ln + 1))) [
      | inl e ↦ rw (add_line, e) (All-append Fits chunks (buf ∷ []) a (b, tt), c)
      | inr e ↦ rw (add_line, e) (a, joined-Fits buf ln e)
    ]

pack-Fits :
    (chunks : List String) (buf ln : String)
    → All Fits chunks
    → Fits buf
    → All Fits (pack_line chunks buf ln).0 × Fits (pack_line chunks buf ln).1
unfolding pack_line
pack-Fits chunks buf ln a b =
    let p = split_long (text_length ln) (chunks, buf, ln) in
    let (x, y, z) = split-Fits (text_length ln) chunks buf ln (omega arith) a b in
    add-Fits p.0 p.1 p.2 x y z

last-Fits :
    (chunks : List String) (buf : String)
    → All Fits chunks
    → Fits buf
    → All Fits (last_chunk chunks buf)
last-Fits chunks buf a b =
    elim (Bool-cases (not (buf == "") && ltb (length chunks) max_postback_chunks)) [
      | inl e ↦ rw e (All-append Fits chunks (buf ∷ []) a (b, tt))
      | inr e ↦ rw e a
    ]

from-Fits :
    (chunks : List String) (buf : String) (lines : List String)
    → All Fits chunks
    → Fits buf
    → All Fits (chunk_from chunks buf lines)
unfolding chunk_from
from-Fits chunks buf [] a b = last-Fits chunks buf a b
from-Fits chunks buf (ln ∷ lines) a b =
    let p = pack_line chunks buf ln in
    let (x, y) = pack-Fits chunks buf ln a b in
    elim (Bool-cases (leb max_postback_chunks (length p.0))) [
      | inl e ↦ rw e (last-Fits p.0 p.1 x y)
      | inr e ↦ rw e (from-Fits p.0 p.1 lines x y)
    ]

-- Whatever lines a run printed, however long, every message that is made of them has at most 1900
-- characters.
pub chunk_output-fits :
    (lines : List String) → All (λ c. text_length c ≤ msg_limit) (chunk_output lines)
unfolding chunk_output
chunk_output-fits lines = from-Fits [] "" lines tt (omega arith)
