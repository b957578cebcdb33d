-- ===== src/Interceptor/Segments.antt =====
-- What fixupKernArgs leaves in the new segment.
use mathlib.Core.List.{append_assoc}
use omniprobe.Prelude.{
  ℕ, zero, suc, ◌+◌, ◌-◌, ◌≤◌, ◌≡◌, refl, sym, ap, ◌∙◌, true, [], ◌∷◌, ◌++◌, some, Bytes, ◌==◌,
  arith, length, take, drop, replicate, length-append, length-replicate,
}
use omniprobe.Interceptor.KernArgs.{ArgDescriptor, pointer_size, write_at, fixup_kern_args}

take_front : (xs ys : Bytes) → take (length xs) (xs ++ ys) ≡ xs
take_front [] ys = refl
take_front (x ∷ xs) ys = ap (λ t. x ∷ t) (take_front xs ys)

drop_front : (xs ys : Bytes) → drop (length xs) (xs ++ ys) ≡ ys
drop_front [] ys = refl
drop_front (x ∷ xs) ys = drop_front xs ys

drop_two : (xs ys zs : Bytes) → drop (length xs + length ys) (xs ++ (ys ++ zs)) ≡ zs
drop_two xs ys zs =
    let e = sym (append_assoc xs ys zs) in
    let n = sym (length-append xs ys) in rw (e, n) (drop_front (xs ++ ys) zs)

-- Writing over a part of equal length.
write_middle :
    (a old new b : Bytes)
    → length old ≡ length new
    → write_at (length a) new (a ++ (old ++ b)) ≡ a ++ (new ++ b)
unfolding write_at
write_middle a old new b h =
    rw (take_front a (old ++ b), sym h, drop_two a old b) (append_assoc a new b)

abbrev pub zeros : ℕ → Bytes
zeros n = replicate n 0

replicate_append : (k m n : ℕ) → k ≡ m + n → zeros k ≡ zeros m ++ zeros n
replicate_append k zero n h = ap (λ i. zeros i) (omega arith)
replicate_append zero (suc m) n h = absurd (omega arith)
replicate_append (suc k) (suc m) n h = ap (λ t. 0 ∷ t) (replicate_append k m n (omega arith))

-- The cleared segment, cut at the places where the copies go.
zeros_cut :
    (k e c : ℕ)
    → e + 8 + c ≤ k
    → zeros k ≡ zeros e ++ (zeros 8 ++ (zeros c ++ zeros (k - (e + 8 + c))))
zeros_cut k e c h =
    let last = replicate_append (k - (e + 8)) c (k - (e + 8 + c)) (omega arith) in
    let middle = replicate_append (k - e) 8 (k - (e + 8)) (omega arith) in
    replicate_append k e (k - e) (omega arith)
    ∙ ap (λ t. zeros e ++ t) (middle ∙ ap (λ t. zeros 8 ++ t) last)

second_copy :
    (e gap a hidden tail : Bytes)
    → length a ≡ length hidden
    → write_at (length e + length gap) hidden (e ++ (gap ++ (a ++ tail)))
      ≡ e ++ (gap ++ (hidden ++ tail))
second_copy e gap a hidden tail h =
    let n = sym (length-append e gap) in
    let before = sym (append_assoc e gap (a ++ tail)) in
    let after = append_assoc e gap (hidden ++ tail) in
    rw (n, before) (write_middle (e ++ gap) a hidden tail h ∙ after)

no_bytes :
    (hidden last : Bytes)
    → (length hidden == 0) ≡ true
    → zeros (length hidden) ++ last ≡ hidden ++ last
no_bytes [] last h = refl
no_bytes (x ∷ hidden) last h = absurd (ground arith)

-- For a descriptor whose explicit arguments are those of the original and one pointer, and whose
-- segment has room for the original's hidden arguments behind them, the new segment holds the
-- explicit arguments, the pointer, the hidden arguments, and zeros to its end.
pub fixup_kern_args_layout :
    (explicit comms hidden rest : Bytes) (desc : ArgDescriptor)
    → length comms ≡ pointer_size
    → desc.explicit_args_length ≡ length explicit + pointer_size
    → desc.clone_hidden_args_length ≡ length hidden
    → length explicit + pointer_size + length hidden ≤ desc.kernarg_length
    → fixup_kern_args (explicit ++ (hidden ++ rest)) comms desc
      ≡ some (
          explicit
          ++ (comms
              ++ (hidden
                  ++ zeros
                      (desc.kernarg_length - (length explicit + pointer_size + length hidden)))))
unfolding fixup_kern_args
fixup_kern_args_layout explicit comms hidden rest desc hc he hh room =
    let e = length explicit in
    let c = length hidden in
    let last = zeros (desc.kernarg_length - (e + 8 + c)) in
    let start : desc.explicit_args_length - pointer_size ≡ length explicit = omega arith in
    let cut = zeros_cut desc.kernarg_length e c room in
    let front = take_front explicit (hidden ++ rest) in
    let behind = drop_front explicit (hidden ++ rest) in
    let part = take_front hidden rest in
    let one : write_at 0 explicit (zeros e ++ (zeros 8 ++ (zeros c ++ last)))
        ≡ explicit ++ (zeros 8 ++ (zeros c ++ last)) =
      write_middle [] (zeros e) explicit (zeros 8 ++ (zeros c ++ last)) (length-replicate e 0) in
    let two : write_at (e + 8) hidden (explicit ++ (zeros 8 ++ (zeros c ++ last)))
        ≡ explicit ++ (zeros 8 ++ (hidden ++ last)) =
      second_copy explicit (zeros 8) (zeros c) hidden last (length-replicate c 0) in
    let three = write_middle explicit (zeros 8) comms (hidden ++ last) (sym hc) in
    let bare = write_middle explicit (zeros 8) comms (zeros c ++ last) (sym hc) in
    let none_hidden : (c == 0) ≡ true → zeros c ++ last ≡ hidden ++ last =
      λ h. no_bytes hidden last h in
    rw (fixup_kern_args, start, he, hh, cut, front, behind, part, one, two, three, bare)
      (ground (arith, none_hidden))
