-- ===== src/Std/Utf8/Append.antt =====
-- UTF-8 texts in a row, and a text cut at a newline.
use tmux_rescue.Common.{
  Bool-cases, List, [], all, ap, arith, false, in_range, inl, inr, list_eq, num_eq, refl, some,
  some-injective, suc, sym, ℕ, ℕ-cases, ◌++◌, ◌==◌, ◌↔◌, ◌∙◌, ◌∷◌, ◌≡◌, ◌⊎◌,
}
use tmux_rescue.Std.Text.{Bytes}
use tmux_rescue.Std.Utf8.{
  Decoder, Utf8, all_valid, between, broken, continuation, decode, feed, from_utf8, lead, malformed,
  push, scalar, scan,
}
use tmux_rescue.Std.Utf8.Laws.{
  IsDecoder, Progress-cases, Utf8-cases, feed-unfinished, scan_of_malformed, scan_of_partial,
  scan_of_scalar,
}

push-eq-all_valid :
    (c width : ℕ) (r : Utf8) (cs : List ℕ)
    → push c width r ≡ all_valid cs
    → (rest : List ℕ) × (r ≡ all_valid rest) × (cs ≡ c ∷ rest)
unfolding push
push-eq-all_valid c width (all_valid rest) cs h = (rest, refl, cc)
push-eq-all_valid c width (broken rest valid_up_to error_len) cs h = cc

-- How many bytes are pending matters to faults only.
scan_pending :
    (bs : Bytes) (d : Decoder) (p q : ℕ) (cs : List ℕ)
    → scan d p bs ≡ all_valid cs
    → scan d q bs ≡ all_valid cs
unfolding scan push
scan_pending [] d p q cs h = h
scan_pending (b ∷ bs) d p q cs h = elim (Progress-cases (feed d b)) [
  | inl (c, ended) ↦
      let (rest, all, same) =
        push-eq-all_valid c (suc p) _ cs (sym (scan_of_scalar d p b bs c ended) ∙ h) in
      scan_of_scalar d q b bs c ended ∙ ap (push c (suc q)) all ∙ ap all_valid (sym same)
  | inr (inl (d', more)) ↦
      scan_of_partial d q b bs d' more
      ∙ scan_pending bs d' (suc p) (suc q) cs (sym (scan_of_partial d p b bs d' more) ∙ h)
  | inr (inr fault) ↦ let never = scan_of_malformed d p b bs fault in cc
]

-- Where no byte is due, a text begins.
scan_at_start : (bs : Bytes) (d : Decoder) (p : ℕ) → d.due ≡ 0 → scan d p bs ≡ scan between p bs
unfolding scan feed
scan_at_start [] d p h = rw h refl
scan_at_start (b ∷ bs) d p h = rw h refl

scan-due_zero :
    (bs : Bytes) (d : Decoder) (p q : ℕ) (cs : List ℕ)
    → d.due ≡ 0
    → scan between q bs ≡ all_valid cs
    → scan d p bs ≡ all_valid cs
scan-due_zero bs d p q cs none_due h =
    scan_at_start bs d p none_due ∙ scan_pending bs between q p cs h

scan-nil-due :
    (d : Decoder) (p : ℕ) (cs : List ℕ) → scan d p [] ≡ all_valid cs → (d.due ≡ 0) × (cs ≡ [])
unfolding scan
scan-nil-due d p cs h = elim (Bool-cases (d.due == 0)) [
  | inl same ↦ ((num_eq.decides _ _).0 same, let made = rw (same, scan) at h in cc)
  | inr other ↦ let never = rw (other, scan) at h in cc
]

-- A text behind a text.
scan-append :
    (xs bs : Bytes) (d : Decoder) (p : ℕ) (cs ds : List ℕ)
    → scan d p xs ≡ all_valid cs
    → scan between 0 bs ≡ all_valid ds
    → scan d p (xs ++ bs) ≡ all_valid (cs ++ ds)
unfolding push
scan-append [] bs d p cs ds h k =
    let (none_due, empty) = scan-nil-due d p cs h in rw empty (scan-due_zero bs d p 0 ds none_due k)
scan-append (b ∷ xs) bs d p cs ds h k = elim (Progress-cases (feed d b)) [
  | inl (c, ended) ↦
      let (rest, all, same) =
        push-eq-all_valid c (suc p) _ cs (sym (scan_of_scalar d p b xs c ended) ∙ h) in
      rw same (
        scan_of_scalar d p b (xs ++ bs) c ended
        ∙ ap (push c (suc p)) (scan-append xs bs between 0 rest ds all k))
  | inr (inl (d', more)) ↦
      scan_of_partial d p b (xs ++ bs) d' more
      ∙ scan-append xs bs d' (suc p) cs ds (sym (scan_of_partial d p b xs d' more) ∙ h) k
  | inr (inr fault) ↦ let never = scan_of_malformed d p b xs fault in cc
]

-- A newline ends a character, so that both sides of it are texts.
feed-newline :
    (d : Decoder)
    → IsDecoder d
    → ((d.due ≡ 0) × (feed d 0x0A ≡ scalar 0x0A)) ⊎ (feed d 0x0A ≡ malformed)
unfolding feed lead continuation
feed-newline d h = elim (ℕ-cases d.due) [
  | inl none_due ↦ inl (none_due, rw (none_due, feed) refl)
  | inr (due, some_due) ↦ inr (
      rw (some_due, feed)
        (let low : in_range d.low d.high 0x0A ≡ false = ground arith in rw low refl))
]

scan_empty : scan between 0 [] ≡ all_valid []
unfolding scan
scan_empty = refl

scan-newline :
    (xs bs : Bytes) (d : Decoder) (p : ℕ) (cs : List ℕ)
    → IsDecoder d
    → scan d p (xs ++ 0x0A ∷ bs) ≡ all_valid cs
    → (before after : List ℕ) × (scan d p xs ≡ all_valid before)
      × (scan between 0 bs ≡ all_valid after)
      × (cs ≡ before ++ 0x0A ∷ after)
unfolding push
scan-newline [] bs d p cs within h = elim (feed-newline d within) [
  | inl (none_due, ended) ↦
      let (rest, all, same) =
        push-eq-all_valid 0x0A (suc p) _ cs (sym (scan_of_scalar d p 0x0A bs 0x0A ended) ∙ h) in
      ([], rest, scan-due_zero [] d p 0 [] none_due scan_empty, all, same)
  | inr fault ↦ let never = scan_of_malformed d p 0x0A bs fault in cc
]
scan-newline (b ∷ xs) bs d p cs within h = elim (Progress-cases (feed d b)) [
  | inl (c, ended) ↦
      let (rest, all, same) =
        push-eq-all_valid c (suc p) _ cs
          (sym (scan_of_scalar d p b (xs ++ 0x0A ∷ bs) c ended) ∙ h) in
      let (before, after, first, second, cut) =
        scan-newline xs bs between 0 rest (omega arith) all in
      (
        c ∷ before,
        after,
        scan_of_scalar d p b xs c ended ∙ ap (push c (suc p)) first,
        second,
        same ∙ ap (λ l. c ∷ l) cut,
      )
  | inr (inl (d', more)) ↦
      let (_, within') = feed-unfinished d b d' within more in
      let (before, after, first, second, cut) =
        scan-newline xs bs d' (suc p) cs within'
          (sym (scan_of_partial d p b (xs ++ 0x0A ∷ bs) d' more) ∙ h) in
      (before, after, scan_of_partial d p b xs d' more ∙ first, second, cut)
  | inr (inr fault) ↦ let never = scan_of_malformed d p b (xs ++ 0x0A ∷ bs) fault in cc
]

decode-scan :
    (bytes : Bytes) (cs : List ℕ) → (decode bytes ≡ some cs) ↔ (scan between 0 bytes ≡ all_valid cs)
unfolding decode from_utf8
decode-scan bytes cs = elim (Utf8-cases (scan between 0 bytes)) [
  | inl (ds, all) ↦ (
    λ h. all ∙ ap all_valid (some-injective (rw (all, decode, from_utf8) at h)),
    λ h. rw (all, decode, from_utf8) (let same = sym all ∙ h in cc),
  )
  | inr (ds, v, e, fault) ↦ (
    λ h. let never = rw (fault, decode, from_utf8) at h in cc,
    λ h. let never = sym fault ∙ h in cc,
  )
]

pub decode-append :
    (xs bs : Bytes) (cs ds : List ℕ)
    → decode xs ≡ some cs
    → decode bs ≡ some ds
    → decode (xs ++ bs) ≡ some (cs ++ ds)
decode-append xs bs cs ds h k =
    (decode-scan (xs ++ bs) (cs ++ ds)).1
      (scan-append xs bs between 0 cs ds ((decode-scan xs cs).0 h) ((decode-scan bs ds).0 k))

pub decode-newline :
    (xs bs : Bytes) (cs : List ℕ)
    → decode (xs ++ 0x0A ∷ bs) ≡ some cs
    → (before after : List ℕ) × (decode xs ≡ some before)
      × (decode bs ≡ some after)
      × (cs ≡ before ++ 0x0A ∷ after)
decode-newline xs bs cs h =
    let (before, after, first, second, cut) =
      scan-newline xs bs between 0 cs (omega arith) ((decode-scan (xs ++ 0x0A ∷ bs) cs).0 h) in
    (before, after, (decode-scan xs before).1 first, (decode-scan bs after).1 second, cut)
