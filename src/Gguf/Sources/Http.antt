-- ===== src/Gguf/Sources/Http.antt =====
-- HttpSource of scripts/probe-gguf-header.mjs.
--
-- `fetch from target` stands for the response to a request for the bytes from `from` up to `target`, and
-- the body of a whole response for the chunks that its reader gives.
pub mod Receiving
pub mod Serving
use dip_distributed_llm_runt.Prelude.{
  ℕ, zero, suc, ◌+◌, ◌-◌, ◌*◌, ◌≤◌, ◌<◌, ◌≡◌, ◌⊎◌, refl, sym, ap, subst, ◌∙◌, List, [], ◌∷◌, ◌++◌,
  Option, none, some, length, take, drop, min, if◌then◌else◌, leb, ltb, ◌==◌, not, arith,
  length-append, length-take, take-length, take-take, take_all, take-append_le, append_assoc,
  append-nil, if-cases, Bool-cases, Option-cases, inl, inr, true, false,
}
use dip_distributed_llm_runt.Gguf.Sources.{ByteSource, IsSourceOf}
use dip_distributed_llm_runt.Gguf.Sources.File.{
  max_read, aim, joined, HasStart, take-HasStart, append-HasStart,
}

pub data Response : Type 0 where
  -- 206: the size of the file, where content-range names it, and the body.
  partial : (total : Option ℕ) → List ℕ → Response
  -- 200: content-length, where there is one, and the chunks of the body.
  whole : (content_length : Option ℕ) → List (List ℕ) → Response
  refused : (status : ℕ) → Response

-- `mode` and `stream`: the chunks that are still to come.
pub data Mode : Type 0 where
  ranges : Mode
  streaming : List (List ℕ) → Mode

pub record HttpSource : Type 0 where
  pub bytes : List ℕ
  pub size : Option ℕ
  pub requests : ℕ
  pub mode : Mode

abbrev pub new_source : HttpSource
new_source = record { bytes = []; size = none; requests = 0; mode = ranges }

-- `pump`: the buffer and what is left of the stream.
unfoldable pub pump_loop : ℕ → List (List ℕ) → List ℕ → List ℕ × List (List ℕ)
pump_loop target [] bytes = (bytes, [])
pump_loop target (chunk ∷ chunks) bytes =
    let rest = pump_loop target chunks (bytes ++ chunk) in
    if ltb (length bytes) target then rest else (bytes, chunk ∷ chunks)

unfoldable pub pump : ℕ → List (List ℕ) → HttpSource → HttpSource
pump target chunks s =
    let (bytes, rest) = pump_loop target chunks s.bytes in
    record s { bytes = bytes; mode = streaming rest }

-- `Number(response.headers.get("content-length"))`: a header that is missing is null, which is 0.
abbrev pub length_header : Option ℕ → ℕ
length_header none = 0
length_header (some n) = n

-- `fetchRange` with its response; `none` is an error.
unfoldable pub receive : ℕ → Response → HttpSource → Option HttpSource
receive target (partial total body) s = some (record s {
  requests = s.requests + 1;
  size = elim total [ none ↦ s.size | some n ↦ some n ];
  bytes = s.bytes ++ body;
})
receive target (whole content_length body) s =
    if not (length s.bytes == 0)
    then none
    else some (
        pump target body
          (record s { requests = s.requests + 1; size = some (length_header content_length) }))
receive target (refused status) s = none

unfoldable pub fill : (ℕ → ℕ → Response) → ℕ → HttpSource → Option HttpSource
fill fetch target s = elim s.mode [
  | ranges ↦ receive target (fetch (length s.bytes) target) s
  | streaming chunks ↦ some (pump target chunks s)
]

abbrev pub target_of : ℕ → HttpSource → ℕ
target_of end s = elim s.size [ none ↦ aim end s.bytes | some n ↦ min (aim end s.bytes) n ]

abbrev pub checked : ℕ → HttpSource → Option HttpSource → Option (List ℕ) × HttpSource
checked end s none = (none, s)
checked end s (some t) = if ltb (length t.bytes) end then (none, t) else (some t.bytes, t)

unfoldable pub http_ensure : (ℕ → ℕ → Response) → ℕ → HttpSource → Option (List ℕ) × HttpSource
http_ensure fetch end s =
    if leb end (length s.bytes)
    then (some s.bytes, s)
    else if ltb max_read end
    then (none, s)
    else if ltb (target_of end s) end
    then (none, s)
    else checked end s (fill fetch (target_of end s) s)

abbrev pub http_source : (ℕ → ℕ → Response) → ByteSource HttpSource
http_source fetch = record { ensure = http_ensure fetch }
