-- ===== src/Fs/Archive/Layout.antt =====
-- What an archive is, and what it means that its members are loaded.
use quaros.Base.{ℕ, zero, suc, ◌+◌, ◌%◌, ◌≤◌, ◌<◌, ◌≡◌, refl, ap₂, ◌∙◌, true, List, [], ◌∷◌, arith}
use quaros.Ram.{Mem}
use quaros.Fs.{File, ft_regular}
use quaros.Fs.Archive.{bytes_at}
use quaros.Fs.Archive.Member.{IsHeader}

pub record Member : Type 0 where
  pub name : List ℕ
  pub size : ℕ

-- where the next member is
abbrev pub behind : ℕ → Member → ℕ
behind arp x = arp + 60 + x.size + x.size % 2

-- From `arp` on there are the headers and the contents of these members, one behind the other up to `last`.
abbrev pub Archive : Mem → ℕ → ℕ → List Member → Type 0
Archive m arp last [] = last ≤ arp
Archive m arp last (x ∷ xs) =
    IsHeader m arp x.name x.size
    × (x.size ≤ 4096)
    × (arp + 60 + x.size ≤ last)
    × Archive m (behind arp x) last xs

-- The file is the member at `arp`, whose contents are in its page.
pub record IsFile (r : Mem) (f : File) (m : Mem) (id arp : ℕ) (x : Member) : Type 0 where
  pub numbered : f.id ≡ id
  pub named : f.name ≡ x.name
  pub sized : f.size ≡ x.size
  pub regular : f.type ≡ ft_regular
  pub used : f.in_use ≡ true
  pub copied : (i : ℕ) → i < x.size → m (f.contents + i) ≡ r (arp + 60 + i) % 256
  pub cleared : (i : ℕ) → x.size ≤ i → i < 4096 → m (f.contents + i) ≡ 0

-- The files from `cnt` on are the members from `arp` on, in order.
abbrev pub Loaded : Mem → (ℕ → File) → Mem → ℕ → ℕ → ℕ → List Member → Type 0
Loaded r files m cnt id arp [] = Unit {0}
Loaded r files m cnt id arp (x ∷ xs) =
    IsFile r (files cnt) m id arp x × Loaded r files m (cnt + 1) (id + 1) (behind arp x) xs

bytes_at-same :
    (m m' : Mem) (a n : ℕ)
    → ((x : ℕ) → a ≤ x → x < a + n → m' x ≡ m x)
    → bytes_at m' a n ≡ bytes_at m a n
unfolding bytes_at
bytes_at-same m m' a zero same = refl
bytes_at-same m m' a (suc n) same =
    ap₂ ◌∷◌ (same a (omega arith) (omega arith))
      (bytes_at-same m m' (a + 1) n (λ x lo hi. same x (omega arith) (omega arith)))

pub IsHeader-same :
    (m m' : Mem) (arp : ℕ) (name : List ℕ) (size : ℕ)
    → ((x : ℕ) → arp ≤ x → x < arp + 60 → m' x ≡ m x)
    → IsHeader m arp name size
    → IsHeader m' arp name size
IsHeader-same m m' arp name size same h = record {
  after_name = h.after_name;
  first_digit = h.first_digit;
  digits = h.digits;
  after_size = h.after_size;
  name_is = bytes_at-same m m' arp 16 (λ x lo hi. same x lo (omega arith)) ∙ h.name_is;
  size_is =
      bytes_at-same m m' (arp + 48) 10 (λ x lo hi. same x (omega arith) (omega arith)) ∙ h.size_is;
  plain = h.plain;
  decimal = h.decimal;
  value = h.value;
}
