-- ===== src/Gguf/Sources/File.antt =====
-- FileSource of scripts/probe-gguf-header.mjs.
--
-- `read start stop` stands for the chunks that createReadStream gives for the bytes from `start` up to
-- `stop`; its `end` is `stop - 1`.
use dip_distributed_llm_runt.Prelude.{
  ℕ, ◌+◌, ◌-◌, ◌*◌, ◌≤◌, ◌≡◌, sym, ap, subst, ◌∙◌, List, [], ◌∷◌, ◌++◌, Option, none, some, length,
  take, drop, min, max, if◌then◌else◌, leb, ltb, arith, length-take, take-length, take-take,
  take-append-drop, drop-take, if-cases, Bool-cases, inl, inr,
}
use dip_distributed_llm_runt.Gguf.Sources.{ByteSource, IsSourceOf}

abbrev pub first_read : ℕ
first_read = 1_048_576

abbrev pub max_read : ℕ
max_read = 536_870_912

abbrev pub joined : List (List ℕ) → List ℕ
joined [] = []
joined (chunk ∷ chunks) = chunk ++ joined chunks

pub record FileSource : Type 0 where
  pub size : ℕ
  pub bytes : List ℕ
  pub requests : ℕ

-- The size that the next read aims at.
abbrev pub aim : ℕ → List ℕ → ℕ
aim end bytes = max (max end first_read) (length bytes * 2)

-- The buffer once the chunks have been copied behind it.
unfoldable pub load : (ℕ → ℕ → List (List ℕ)) → ℕ → FileSource → FileSource
load read target s = record s {
  bytes = s.bytes ++ joined (read (length s.bytes) target);
  requests = s.requests + 1;
}

unfoldable pub answer : ℕ → FileSource → Option (List ℕ) × FileSource
answer end s = if ltb (length s.bytes) end then (none, s) else (some s.bytes, s)

unfoldable pub file_ensure : (ℕ → ℕ → List (List ℕ)) → ℕ → FileSource → Option (List ℕ) × FileSource
file_ensure read end s =
    if leb end (length s.bytes)
    then (some s.bytes, s)
    else if ltb max_read end
    then (none, s)
    else if ltb (min (aim end s.bytes) s.size) end
    then (none, s)
    else answer end (load read (min (aim end s.bytes) s.size) s)

abbrev pub file_source : (ℕ → ℕ → List (List ℕ)) → ByteSource FileSource
file_source read = record { ensure = file_ensure read }

-- createReadStream gives the bytes of the range, cut anyhow.
abbrev pub Reads : (ℕ → ℕ → List (List ℕ)) → List ℕ → Type 0
Reads read file =
    (start stop : ℕ) → joined (read start stop) ≡ take (stop - start) (drop start file)

abbrev pub HasStart : List ℕ → List ℕ → Type 0
HasStart file bytes = bytes ≡ take (length bytes) file

-- A start of the file, and the bytes that come next, are a longer start.
pub append-HasStart :
    (file bytes : List ℕ) (stop : ℕ)
    → HasStart file bytes
    → length bytes ≤ stop
    → bytes ++ take (stop - length bytes) (drop (length bytes) file) ≡ take stop file
append-HasStart file bytes stop h le =
    ap (λ b. b ++ take (stop - length bytes) (drop (length bytes) file))
      (h ∙ sym (take-take (length bytes) stop file le))
    ∙ ap (λ b. take (length bytes) (take stop file) ++ b) (sym (drop-take (length bytes) stop file))
    ∙ take-append-drop (length bytes) (take stop file)

pub take-HasStart : (file : List ℕ) (n : ℕ) → HasStart file (take n file)
take-HasStart file n = sym (ap (λ k. take k file) (length-take n file) ∙ take-length n file)

pub record IsOpen (file : List ℕ) (s : FileSource) : Type 0 where
  pub size : s.size ≡ length file
  pub start : HasStart file s.bytes

module _ (read : ℕ → ℕ → List (List ℕ)) (file : List ℕ) (reads : Reads read file) where
  load_bytes :
      (target : ℕ) (s : FileSource)
      → IsOpen file s
      → length s.bytes ≤ target
      → (load read target s).bytes ≡ take target file
  unfolding load
  load_bytes target s h le =
      ap (◌++◌ s.bytes) (reads (length s.bytes) target)
      ∙ append-HasStart file s.bytes target h.start le

  abbrev Sound : ℕ → Option (List ℕ) × FileSource → Type 0
  Sound end r =
      (bytes : List ℕ)
      → r.0 ≡ some bytes
      → HasStart file bytes × (end ≤ length bytes) × IsOpen file r.1

  load-IsOpen :
      (target : ℕ) (s : FileSource)
      → IsOpen file s
      → length s.bytes ≤ target
      → IsOpen file (load read target s)
  unfolding load
  load-IsOpen target s h le = record {
    size = h.size;
    start = subst (HasStart file) (sym (load_bytes target s h le)) (take-HasStart file target);
  }

  answer-Sound : (end : ℕ) (s : FileSource) → IsOpen file s → Sound end (answer end s)
  unfolding answer
  answer-Sound end s h =
      if-cases (Sound end) (ltb (length s.bytes) end) (λ _ bytes e. absurd (cc))
        (λ enough bytes e.
          let same : s.bytes ≡ bytes = cc in
          (subst (HasStart file) same h.start, subst (λ b. end ≤ length b) same (ground arith), h))

  ensure-Sound : (end : ℕ) (s : FileSource) → IsOpen file s → Sound end (file_ensure read end s)
  unfolding file_ensure
  ensure-Sound end s h =
      if-cases (Sound end) (leb end (length s.bytes))
        (λ enough bytes e.
          let same : s.bytes ≡ bytes = cc in
          (subst (HasStart file) same h.start, subst (λ b. end ≤ length b) same (ground arith), h))
        (λ more.
          if-cases (Sound end) (ltb max_read end) (λ _ bytes e. absurd (cc))
            (λ _.
              if-cases (Sound end) (ltb (min (aim end s.bytes) s.size) end)
                (λ _ bytes e. absurd (cc))
                (λ fits.
                  answer-Sound end (load read (min (aim end s.bytes) s.size) s)
                    (load-IsOpen (min (aim end s.bytes) s.size) s h (ground arith)))))

  ensure_gives :
      (end : ℕ) (s : FileSource)
      → IsOpen file s
      → end ≤ min (length file) max_read
      → (bytes : List ℕ) × ((file_ensure read end s).0 ≡ some bytes)
  unfolding file_ensure answer
  ensure_gives end s h le = elim (Bool-cases (leb end (length s.bytes))) [
    | inl enough ↦ (s.bytes, ground (arith, enough))
    | inr more ↦
        let target : ℕ = min (aim end s.bytes) s.size in
        let below : length s.bytes ≤ target = ground (arith, h.size) in
        let got : length (load read target s).bytes ≡ min target (length file) =
          ap length (load_bytes target s h below) ∙ length-take target file in
        ((load read target s).bytes, ground (arith, h.size, got))
  ]

  pub file_source-IsSourceOf :
      IsSourceOf (file_source read) (IsOpen file) file (min (length file) max_read)
  file_source-IsSourceOf = record { sound = ensure-sound; gives = ensure_gives }
    where
      ensure-sound :
          (end : ℕ) (s : FileSource) (bytes : List ℕ)
          → IsOpen file s
          → (file_ensure read end s).0 ≡ some bytes
          → HasStart file bytes × (end ≤ length bytes) × IsOpen file (file_ensure read end s).1
      ensure-sound end s bytes h e = ensure-Sound end s h bytes e
