-- ===== src/Printf/Sinks/Fields.antt =====
-- `fprintf_field_begin` and `fprintf_field_end` of src/stdio.c: padding to the width of a field.
use freestanding_custom_c_li.Prelude.{
  ℕ, ◌+◌, ◌-◌, ◌≡◌, Bool, [], ◌++◌, arith, Bytes, length, replicate, length-append, leb, leb_iff,
  leb-false, if◌then◌else◌, Bool-cases, inl, inr,
}
use freestanding_custom_c_li.Kernel.{Kernel}
use freestanding_custom_c_li.Stdio.Buffered.{Complete}
use freestanding_custom_c_li.Printf.Formats.{State}
use freestanding_custom_c_li.Printf.Sinks.{
  Writer, ◌>>>◌, sink_bytes, sink_repeat, fprintf_field_begin, fprintf_field_end,
}
use freestanding_custom_c_li.Printf.Sinks.Written.{
  framed, length-replicate, Writes, succeed-Writes, >>>-Writes, sink_bytes-Writes,
  sink_repeat-Writes,
}
use mathlib.Core.List.{append-nil, append_assoc}
use mathlib.Core.Path.{subst}
use native.Mathlib.Decide.{dec_le}

-- A field is as long as what it shows, or as wide as the width asks for.
pub length-framed :
    (state : State) (prefix body : Bytes) (zero_pad : Bool)
    → let shown = length prefix + length body in
      length (framed state prefix body zero_pad)
      ≡ (if leb shown state.width then state.width else shown)
length-framed state prefix body zero_pad =
    let pad = state.width - (length prefix + length body) in
    let blanks = length-replicate {A = ℕ} pad b' ' in
    let zeros = length-replicate {A = ℕ} pad b'0' in
    let l1 = length-append prefix (body ++ replicate pad b' ') in
    let l2 = length-append body (replicate pad b' ') in
    let l3 = length-append prefix (replicate pad b'0' ++ body) in
    let l4 = length-append (replicate pad b'0') body in
    let l5 = length-append (replicate pad b' ') (prefix ++ body) in
    let l6 = length-append prefix body in
    elim (Bool-cases state.flags.left_align) [
      | inl left ↦ rw left (ground (arith, blanks, l1, l2))
      | inr right ↦ elim (Bool-cases zero_pad) [
        | inl z ↦ rw (right, z) (ground (arith, zeros, l3, l4))
        | inr z ↦ rw (right, z) (ground (arith, blanks, l5, l6))
      ]
    ]

-- What stands behind the body of a field of `len` bytes.
abbrev pub trailing : State → ℕ → Bytes
trailing state len = if state.flags.left_align then replicate (state.width - len) b' ' else []

module _ (k : Kernel) (complete : Complete k) (state : State) where
  pub field_end-Writes : (len : ℕ) → Writes k (fprintf_field_end k state len) (trailing state len)
  unfolding fprintf_field_end
  field_end-Writes len = elim (Bool-cases state.flags.left_align) [
    | inl left ↦ elim (dec_le state.width len) [
      | yes full ↦
          let z : state.width - len ≡ 0 = omega arith in
          rw (left, (leb_iff state.width len).1 full, z) (succeed-Writes k)
      | no wider ↦
          rw (left, leb-false state.width len (omega arith))
            (sink_repeat-Writes k complete b' ' (state.width - len))
    ]
    | inr right ↦ rw right (succeed-Writes k)
  ]

  -- A field whose body and end are written by `tail`.
  pub field-Writes :
      (prefix body : Bytes) (zero_pad : Bool) (len : ℕ) (tail : Writer k)
      → len ≡ length prefix + length body
      → Writes k tail (body ++ trailing state len)
      → Writes k
          (fprintf_field_begin k state len prefix zero_pad >>> tail)
          (framed state prefix body zero_pad)
  unfolding fprintf_field_begin
  field-Writes prefix body zero_pad len tail e t =
      let pad = state.width - len in
      let same : state.width - (length prefix + length body) ≡ pad = omega arith in
      let opening = sink_bytes-Writes k complete prefix in
      elim (Bool-cases state.flags.left_align) [
        | inl left ↦
            let t' : Writes k tail (body ++ replicate pad b' ') = rw left at t in
            rw (left, same)
              (>>>-Writes k (sink_bytes k prefix) tail prefix (body ++ replicate pad b' ') opening
                t')
        | inr right ↦
            let t' : Writes k tail body =
              subst (λ l. Writes k tail l) (append-nil body) (rw right at t) in
            elim (Bool-cases zero_pad) [
              | inl z ↦
                  let zeros = replicate pad b'0' in
                  let p = sink_bytes k prefix >>> sink_repeat k b'0' pad in
                  let first =
                    >>>-Writes k (sink_bytes k prefix) (sink_repeat k b'0' pad) prefix zeros opening
                      (sink_repeat-Writes k complete b'0' pad) in
                  rw (right, z, same)
                    (subst (λ l. Writes k (p >>> tail) l) (append_assoc prefix zeros body)
                      (>>>-Writes k p tail (prefix ++ zeros) body first t'))
              | inr z ↦
                  let blanks = replicate pad b' ' in
                  let p = sink_repeat k b' ' pad >>> sink_bytes k prefix in
                  let first =
                    >>>-Writes k (sink_repeat k b' ' pad) (sink_bytes k prefix) blanks prefix
                      (sink_repeat-Writes k complete b' ' pad) opening in
                  rw (right, z, same)
                    (subst (λ l. Writes k (p >>> tail) l) (append_assoc blanks prefix body)
                      (>>>-Writes k p tail (blanks ++ prefix) body first t'))
            ]
      ]
