-- ===== src/Shell/Tokens.antt =====
-- The tokens of a line are its words.
use quaros.Base.{
  ℕ, zero, suc, ◌+◌, ◌-◌, ◌≤◌, ◌<◌, ◌≡◌, ◌≢◌, ◌⊎◌, inl, inr, refl, ap, ap₂, subst, sym, ◌∙◌, true,
  false, some, List, [], ◌∷◌, ◌++◌, length, append_nil, ltb, ◌==◌, arith,
}
use mathlib.Core.List.{append_assoc}
use quaros.Ram.{Mem, store8, store8_self, store8-other}
use quaros.Str.{strlen}
use quaros.Shell.{max_arg, skip_spaces, word_end, token_loop, tokenize}

-- A word, of characters that are neither spaces nor terminators, stands at `p`.
abbrev pub Word : Mem → ℕ → List ℕ → Type 0
Word m p [] = Unit {0}
Word m p (c ∷ w) = (m p ≡ c) × (c ≢ 0) × (c ≢ 32) × Word m (p + 1) w

-- From `p` to the terminator at `e` there are these words, each not empty and with so many spaces
-- behind it; none only at the end.
abbrev pub Line : Mem → ℕ → ℕ → List (List ℕ × ℕ) → Type 0
Line m p e [] = e ≤ p
Line m p e ((w, zero) ∷ ws) = (0 < length w) × Word m p w × (p + length w ≡ e) × (ws ≡ [])
Line m p e ((w, suc k) ∷ ws) =
    (0 < length w)
    × Word m p w
    × ((i : ℕ) → i < suc k → m (p + length w + i) ≡ 32)
    × (p + length w + suc k ≤ e)
    × Line m (p + length w + suc k) e ws

-- Each token is the place of a word, which has a terminator behind it.
abbrev pub Tokens : Mem → List ℕ → List (List ℕ × ℕ) → Type 0
Tokens m [] [] = Unit {0}
Tokens m [] (x ∷ ws) = ⊥
Tokens m (t ∷ ts) [] = ⊥
Tokens m (t ∷ ts) ((w, k) ∷ ws) = Word m t w × (m (t + length w) ≡ 0) × Tokens m ts ws

Word-same :
    (m m' : Mem) (p : ℕ) (w : List ℕ)
    → ((x : ℕ) → p ≤ x → x < p + length w → m' x ≡ m x)
    → Word m p w
    → Word m' p w
Word-same m m' p [] same h = tt
Word-same m m' p (c ∷ w) same h = (
  same p (omega arith) (omega arith) ∙ h.0,
  h.1,
  h.2,
  Word-same m m' (p + 1) w (λ x lo hi. same x (omega arith) (omega arith)) h.3,
)

Line-same :
    (m m' : Mem) (p e : ℕ) (ws : List (List ℕ × ℕ))
    → ((x : ℕ) → p ≤ x → x < e → m' x ≡ m x)
    → Line m p e ws
    → Line m' p e ws
Line-same m m' p e [] same h = h
Line-same m m' p e ((w, zero) ∷ ws) same h =
    (h.0, Word-same m m' p w (λ x lo hi. same x lo (omega (arith, h.2))) h.1, h.2, h.3)
Line-same m m' p e ((w, suc k) ∷ ws) same h = (
  h.0,
  Word-same m m' p w (λ x lo hi. same x lo (omega (arith, h.3))) h.1,
  λ i lt. same (p + length w + i) (omega arith) (omega (arith, h.3)) ∙ h.2 i lt,
  h.3,
  Line-same m m' (p + length w + suc k) e ws (λ x lo hi. same x (omega arith) hi) h.4,
)

word_end-Word :
    (fuel : ℕ) (m : Mem) (p : ℕ) (w : List ℕ)
    → length w < fuel
    → Word m p w
    → (m (p + length w) ≡ 32) ⊎ (m (p + length w) ≡ 0)
    → word_end fuel m p ≡ some (p + length w)
unfolding word_end
word_end-Word zero m p w enough h stop = absurd (omega arith)
word_end-Word (suc fuel) m p [] enough h stop =
    let here : p + 0 ≡ p = omega arith in
    let at : (m p ≡ 32) ⊎ (m p ≡ 0) = rw here at stop in rw here (ground (arith, at))
word_end-Word (suc fuel) m p (c ∷ w) enough h stop =
    let on : p + suc (length w) ≡ p + 1 + length w = omega arith in
    let rest = word_end-Word fuel m (p + 1) w (omega arith) h.3 (rw on at stop) in
    rw on (ground (arith, rest, h.0, h.1, h.2))

skip_spaces-some :
    (fuel : ℕ) (m : Mem) (p k : ℕ)
    → k < fuel
    → ((i : ℕ) → i < k → m (p + i) ≡ 32)
    → m (p + k) ≢ 32
    → skip_spaces fuel m p ≡ some (p + k)
unfolding skip_spaces
skip_spaces-some zero m p k enough spaces stop = absurd (omega arith)
skip_spaces-some (suc fuel) m p zero enough spaces stop =
    let here : p + 0 ≡ p = omega arith in
    let at : m p ≢ 32 = rw here at stop in rw here (ground (arith, at))
skip_spaces-some (suc fuel) m p (suc k) enough spaces stop =
    let on : p + suc k ≡ p + 1 + k = omega arith in
    let here : p + 0 ≡ p = omega arith in
    let first : m p ≡ 32 = ap m (sym here) ∙ spaces 0 (omega arith) in
    let rest =
      skip_spaces-some fuel m (p + 1) k (omega arith)
        (λ i lt.
          let next : p + 1 + i ≡ p + suc i = omega arith in
          ap m next ∙ spaces (suc i) (omega arith))
        (rw on at stop) in
    rw on (ground (arith, first, rest))

token_loop-round :
    (rounds fuel buf len rp num e q : ℕ) (acc : List ℕ) (m : Mem)
    → rp < buf + len
    → buf ≤ rp
    → num + 1 < 8
    → word_end fuel m rp ≡ some e
    → skip_spaces fuel (store8 m e 0) (e + 1) ≡ some q
    → token_loop (suc rounds) fuel buf len rp num acc m
      ≡ token_loop rounds fuel buf len q (num + 1) (acc ++ rp ∷ []) (store8 m e 0)
unfolding token_loop
token_loop-round rounds fuel buf len rp num e q acc m inside from few ends skips =
    let more : ltb (rp - buf) len ≡ true = ground arith in
    let room : (num + 1 == 8) ≡ false = ground arith in
    rw (more, ends, room, skips, token_loop) refl

-- What the loop makes of the words from `rp` on.
record Split (rounds fuel buf len rp num : ℕ) (acc : List ℕ) (m : Mem) (ws : List (List ℕ × ℕ))
    : Type 0 where
  ts : List ℕ
  after : Mem
  ran : token_loop rounds fuel buf len rp num acc m ≡ some (num + length ws, acc ++ ts, after)
  tokens : Tokens after ts ws
  outside : (x : ℕ) → (x < rp) ⊎ (buf + len < x) → after x ≡ m x

Split-cons :
    (rounds fuel buf len rp num q : ℕ) (acc : List ℕ) (m : Mem) (w : List ℕ) (k : ℕ)
    (ws : List (List ℕ × ℕ))
    → rp < buf + len
    → buf ≤ rp
    → num + 1 < 8
    → rp + length w < q
    → rp + length w ≤ buf + len
    → Word m rp w
    → word_end fuel m rp ≡ some (rp + length w)
    → skip_spaces fuel (store8 m (rp + length w) 0) (rp + length w + 1) ≡ some q
    → Split rounds fuel buf len q (num + 1) (acc ++ rp ∷ []) (store8 m (rp + length w) 0) ws
    → Split (suc rounds) fuel buf len rp num acc m ((w, k) ∷ ws)
Split-cons rounds fuel buf len rp num q acc m w k ws inside from few behind within word ends skips
      y =
    let e = rp + length w in
    let total : num + 1 + length ws ≡ num + suc (length ws) = omega arith in
    record {
      ts = rp ∷ y.ts;
      after = y.after;
      ran =
          token_loop-round rounds fuel buf len rp num e q acc m inside from few ends skips
          ∙ (y.ran ∙ ap₂ (λ n l. some (n, l, y.after)) total (append_assoc acc (rp ∷ []) y.ts));
      tokens = (
        Word-same m y.after rp w
            (λ x lo hi. y.outside x (inl (omega arith)) ∙ store8-other m e 0 x (omega arith)) word,
        y.outside e (inl behind) ∙ store8_self m e 0,
        y.tokens,
      );
      outside =
          λ x out. y.outside x (omega (arith, out)) ∙ store8-other m e 0 x (omega (arith, out));
    }

line_start :
    (m : Mem) (p e : ℕ) (ws : List (List ℕ × ℕ)) → Line m p e ws → p ≤ e → m e ≡ 0 → m p ≢ 32
line_start m p e [] line le ended =
    let here : p ≡ e = omega arith in λ space. ground (arith, ap m here, space, ended)
line_start m p e (([], zero) ∷ ws) line le ended = absurd (omega (arith, line.0))
line_start m p e (([], suc k) ∷ ws) line le ended = absurd (omega (arith, line.0))
line_start m p e ((c ∷ w, zero) ∷ ws) line le ended = λ space. line.1.2 (sym line.1.0 ∙ space)
line_start m p e ((c ∷ w, suc k) ∷ ws) line le ended = λ space. line.1.2 (sym line.1.0 ∙ space)

token_loop-Split :
    (ws : List (List ℕ × ℕ)) (rounds fuel buf len rp num : ℕ) (acc : List ℕ) (m : Mem)
    → buf ≤ rp
    → Line m rp (buf + len) ws
    → m (buf + len) ≡ 0
    → m (buf + len + 1) ≢ 32
    → num + length ws < 8
    → length ws < rounds
    → len + 1 < fuel
    → Split rounds fuel buf len rp num acc m ws
unfolding token_loop
token_loop-Split ws zero fuel buf len rp num acc m from line ended past few more enough =
    absurd (omega arith)
token_loop-Split [] (suc rounds) fuel buf len rp num acc m from line ended past few more enough =
    let stop : ltb (rp - buf) len ≡ false = ground arith in
    let total : num ≡ num + 0 = omega arith in
    record {
      ts = [];
      after = m;
      ran = rw (stop, token_loop) (ap₂ (λ n l. some (n, l, m)) total (sym (append_nil acc)));
      tokens = tt;
      outside = λ x out. refl;
    }
token_loop-Split ((w, zero) ∷ (x ∷ ws)) (suc rounds) fuel buf len rp num acc m from line ended past
      few more enough =
    (let stuck = line.3 in cc)
token_loop-Split ((w, zero) ∷ []) (suc rounds) fuel buf len rp num acc m from line ended past few
      more enough =
    let (positive, word, at_end, _) = line in
    let e = rp + length w in
    let m' = store8 m e 0 in
    let ended' : m e ≡ 0 = ap m at_end ∙ ended in
    let next : buf + len + 1 ≡ e + 1 + 0 = omega (arith, at_end) in
    let past' : m' (e + 1 + 0) ≢ 32 =
      λ space. past (ap m next ∙ (sym (store8-other m e 0 (e + 1 + 0) (omega arith)) ∙ space)) in
    let ends = word_end-Word fuel m rp w (omega (arith, at_end)) word (inr ended') in
    let skips =
      skip_spaces-some fuel m' (e + 1) 0 (omega arith) (λ i lt. absurd (omega arith)) past' in
    Split-cons rounds fuel buf len rp num (e + 1 + 0) acc m w 0 [] (omega (arith, at_end, positive))
      from (omega arith) (omega arith) (omega (arith, at_end)) word ends skips
      (token_loop-Split [] rounds fuel buf len (e + 1 + 0) (num + 1) (acc ++ rp ∷ []) m'
        (omega arith) (omega (arith, at_end)) (ap m' (sym at_end) ∙ store8_self m e 0)
        (λ space. past (sym (store8-other m e 0 (buf + len + 1) (omega (arith, at_end))) ∙ space))
        (omega arith) (omega arith) enough)
token_loop-Split ((w, suc k) ∷ ws) (suc rounds) fuel buf len rp num acc m from line ended past few
      more enough =
    let (positive, word, spaces, within, others) = line in
    let e = rp + length w in
    let m' = store8 m e 0 in
    let q = e + 1 + k in
    let space_at : m e ≡ 32 = ap m (omega arith) ∙ spaces 0 (omega arith) in
    let ends = word_end-Word fuel m rp w (omega (arith, within)) word (inl space_at) in
    let kept = λ (x : ℕ) (lt : e < x). store8-other m e 0 x (omega (arith, lt)) in
    let at_q : e + suc k ≡ q = omega arith in
    let start : m q ≢ 32 =
      λ space. line_start m (e + suc k) (buf + len) ws others within ended (ap m at_q ∙ space) in
    let skips =
      skip_spaces-some fuel m' (e + 1) k (omega (arith, within))
        (λ i lt.
          kept (e + 1 + i) (omega arith) ∙ (ap m (omega arith) ∙ spaces (suc i) (omega arith)))
        (λ space. start (sym (kept q (omega arith)) ∙ space)) in
    let line' : Line m' q (buf + len) ws =
      Line-same m m' q (buf + len) ws (λ x lo hi. kept x (omega arith))
        (subst (λ a. Line m a (buf + len) ws) at_q others) in
    Split-cons rounds fuel buf len rp num q acc m w (suc k) ws (omega (arith, within, positive))
      from (omega arith) (omega arith) (omega (arith, within)) word ends skips
      (token_loop-Split ws rounds fuel buf len q (num + 1) (acc ++ rp ∷ []) m' (omega arith) line'
        (kept (buf + len) (omega (arith, within)) ∙ ended)
        (λ space. past (sym (kept (buf + len + 1) (omega (arith, within))) ∙ space)) (omega arith)
        (omega arith) enough)

strlen-some :
    (n fuel : ℕ) (m : Mem) (a ret : ℕ)
    → n < fuel
    → ((i : ℕ) → i < n → m (a + ret + i) ≢ 0)
    → m (a + ret + n) ≡ 0
    → strlen fuel m a ret ≡ some (ret + n)
unfolding strlen
strlen-some n zero m a ret enough full ended = absurd (omega arith)
strlen-some zero (suc fuel) m a ret enough full ended =
    let here : a + ret ≡ a + ret + 0 = omega arith in
    let at : m (a + ret) ≡ 0 = ap m here ∙ ended in ground (arith, at)
strlen-some (suc n) (suc fuel) m a ret enough full ended =
    let here : a + ret + 0 ≡ a + ret = omega arith in
    let at : m (a + ret) ≢ 0 = λ e. full 0 (omega arith) (ap m here ∙ e) in
    let rest =
      strlen-some n fuel m a (ret + 1) (omega arith)
        (λ i lt e.
          let next : a + ret + suc i ≡ a + (ret + 1) + i = omega arith in
          full (suc i) (omega arith) (ap m next ∙ e))
        (ap m (omega arith) ∙ ended) in
    ground (arith, at, rest)

-- For a line of fewer than 8 words, with spaces around and between them, that ends at its
-- terminator, behind which there is no space, and with fuel above its length, tokenize returns
-- the number of words; the tokens are the places of the words in order, each word stands there as
-- it did, now with a terminator behind it, and nothing outside the line changes.
pub tokenize-Tokens :
    (fuel buf len k : ℕ) (m : Mem) (ws : List (List ℕ × ℕ))
    → ((i : ℕ) → i < k → m (buf + i) ≡ 32)
    → k ≤ len
    → Line m (buf + k) (buf + len) ws
    → ((i : ℕ) → i < len → m (buf + i) ≢ 0)
    → m (buf + len) ≡ 0
    → m (buf + len + 1) ≢ 32
    → length ws < 8
    → len + 1 < fuel
    → (ts : List ℕ) × (m' : Mem) × (tokenize fuel buf m ≡ some (length ws, ts, m'))
      × Tokens m' ts ws
      × ((x : ℕ) → (x < buf) ⊎ (buf + len < x) → m' x ≡ m x)
unfolding tokenize
tokenize-Tokens fuel buf len k m ws spaces short line full ended past few enough =
    let y =
      token_loop-Split ws 9 fuel buf len (buf + k) 0 [] m (omega arith) line ended past
        (omega arith) (omega arith) enough in
    let at_buf : (i : ℕ) → buf + 0 + i ≡ buf + i = λ i. omega arith in
    let measured =
      strlen-some len fuel m buf 0 (omega arith) (λ i lt e. full i lt (ap m (sym (at_buf i)) ∙ e))
        (ap m (at_buf len) ∙ ended) in
    let zero_add : (n : ℕ) → 0 + n ≡ n = λ n. omega arith in
    let start =
      skip_spaces-some fuel m buf k (omega arith) spaces
        (line_start m (buf + k) (buf + len) ws line (omega arith) ended) in
    (
      y.ts,
      y.after,
      rw (measured ∙ ap some (zero_add len), start, max_arg, tokenize)
          (y.ran ∙ ap (λ n. some (n, y.ts, y.after)) (zero_add (length ws))),
      y.tokens,
      λ x out. y.outside x (omega (arith, out)),
    )
