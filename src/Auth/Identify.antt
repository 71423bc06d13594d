-- ===== src/Auth/Identify.antt =====
-- src/auth.rs, `identify`: who a token signs in.
use mathlib.Core.Option.{some-injective}
use mathlib.Core.Option
use glasir_control.Prelude.{
  ℕ, ◌≤◌, ◌<◌, ◌≡◌, refl, sym, ap, ◌∙◌, ◌↔◌, ◌⊎◌, inl, inr, Bool, true, false, not, ◌&&◌, ◌||◌,
  Option, none, some, List, [], ◌∷◌, ◌++◌, arith, ltb, Bool-cases, and-true, and_intro, is_empty,
  any, all, ◌==◌, eq_iff, nat_eq, Bool_eq, list_eq, pair_eq,
}
use glasir_control.Text.{Text, byte_len}
use glasir_control.Text.Utf8.{as_bytes}
use glasir_control.Security.{constant_time_eq, constant_time_eq_str}
use glasir_control.Crypto.{sha256_hex}
use glasir_control.Crypto.Padding.{is_hex_lower, sha256_hex-digits}
use glasir_control.Crypto.Signatures.{bytes_eq_iff, hex-AreChars}
use glasir_control.Auth.{Entry, read, is_live, find, identify}
use glasir_control.Auth.Entries.{is_sound_entry, read_sound}

-- The hash is the token's, and the entry has not expired.
abbrev pub matches : Text → ℕ → Entry → Bool
matches token now e = e.hash == sha256_hex (as_bytes token) && (e.expires == 0 || ltb now e.expires)

bool_eq : (a b : Bool) → (a ≡ true) ↔ (b ≡ true) → a ≡ b
bool_eq true b h = sym (h.0 refl)
bool_eq false true h = h.1 refl
bool_eq false false h = refl

is_live-matches :
    (token : Text) (now : ℕ) (e : Entry)
    → is_sound_entry e ≡ true
    → is_live (sha256_hex (as_bytes token)) now e ≡ matches token now e
unfolding is_live constant_time_eq_str
is_live-matches token now e h =
    let hash = sha256_hex (as_bytes token) in
    let left =
      hex-AreChars e.hash ((and-true (all is_hex_lower e.hash) (not (is_empty e.name)) h).0) in
    let right = hex-AreChars hash (sha256_hex-digits (as_bytes token)).1 in
    let iff = bytes_eq_iff e.hash hash left right in
    let same : constant_time_eq (as_bytes e.hash) (as_bytes hash) ≡ e.hash == hash =
      bool_eq _ _ (λ t. (eq_iff e.hash hash).1 (iff.0 t), λ t. iff.1 ((eq_iff e.hash hash).0 t)) in
    rw same refl

find_same :
    (p q : Entry → Bool) (es : List Entry)
    → ((e : Entry) → is_sound_entry e ≡ true → p e ≡ q e)
    → all is_sound_entry es ≡ true
    → find p es ≡ find q es
find_same p q [] same h = refl
find_same p q (e ∷ es) same h =
    let (here, later) = and-true (is_sound_entry e) (all is_sound_entry es) h in
    rw (same e here, find_same p q es same later) refl

-- The first entry that passes a test, with what stands around it.
pub record IsFirst (p : Entry → Bool) (es : List Entry) (e : Entry) : Type 0 where
  pub before : List Entry
  pub after : List Entry
  pub split : es ≡ before ++ e ∷ after
  pub none_before : any p before ≡ false
  pub passes : p e ≡ true

find_sound : (p : Entry → Bool) (es : List Entry) (e : Entry) → find p es ≡ some e → IsFirst p es e
find_sound p [] e h = cc h
find_sound p (x ∷ es) e h = elim (Bool-cases (p x)) [
  | inl here ↦
      let same : x ≡ e = some-injective x e (rw here at h) in
      record {
        before = [];
        after = es;
        split = ap (λ (y : Entry). y ∷ es) same;
        none_before = refl;
        passes = ap p (sym same) ∙ here;
      }
  | inr there ↦
      let f = find_sound p es e (rw there at h) in
      record {
        before = x ∷ f.before;
        after = f.after;
        split = ap (λ (ys : List Entry). x ∷ ys) f.split;
        none_before = rw (there, f.none_before) refl;
        passes = f.passes;
      }
]

find_complete :
    (p : Entry → Bool) (before after : List Entry) (e : Entry)
    → any p before ≡ false
    → p e ≡ true
    → find p (before ++ e ∷ after) ≡ some e
find_complete p [] after e none_before passes = rw passes refl
find_complete p (x ∷ before) after e none_before passes =
    let here : p x ≡ false = ground (arith, none_before) in
    let later : any p before ≡ false = ground (arith, none_before) in
    rw here (find_complete p before after e later passes)

-- What it takes to be signed in under a name.
pub record IsSignedIn (entries : List Entry) (token : Text) (now : ℕ) (name : Text) : Type 0 where
  pub before : List Entry
  pub after : List Entry
  pub entry : Entry
  pub nonempty : is_empty token ≡ false
  pub fits : byte_len token ≤ 1024
  pub split : entries ≡ before ++ entry ∷ after
  pub none_before : any (matches token now) before ≡ false
  pub hashed : entry.hash ≡ sha256_hex (as_bytes token)
  pub live : (entry.expires ≡ 0) ⊎ (now < entry.expires)
  pub named : entry.name ≡ name

named_none :
    (o : Option Entry) (name : Text)
    → Option.map (λ (e : Entry). e.name) o ≡ some name
    → (e : Entry) × (o ≡ some e) × (e.name ≡ name)
named_none none name h = cc h
named_none (some e) name h = (e, refl, some-injective e.name name h)

module _ (entries : List Entry) (token : Text) (now : ℕ) (name : Text)
    (sound : all is_sound_entry entries ≡ true) where
  abbrev hash : Text
  hash = sha256_hex (as_bytes token)

  found_same : find (is_live hash now) entries ≡ find (matches token now) entries
  found_same =
      find_same (is_live hash now) (matches token now) entries (is_live-matches token now) sound

  identify_sound : identify entries token now ≡ some name → IsSignedIn entries token now name
  unfolding identify
  identify_sound h = elim (Bool-cases (is_empty token || ltb 1024 (byte_len token))) [
    | inl refused ↦ cc (refused, h)
    | inr asked ↦
        let (e, at_e, named) = named_none (find (is_live hash now) entries) name (rw asked at h) in
        let f = find_sound (matches token now) entries e (sym found_same ∙ at_e) in
        let (hashed, live) =
          and-true (e.hash == hash) (e.expires == 0 || ltb now e.expires) f.passes in
        record {
          before = f.before;
          after = f.after;
          entry = e;
          nonempty = ground (arith, asked);
          fits = ground (arith, asked);
          split = f.split;
          none_before = f.none_before;
          hashed = (eq_iff e.hash hash).0 hashed;
          live = elim (Bool-cases (e.expires == 0)) [
            | inl forever ↦ inl (ground (arith, forever))
            | inr until ↦ inr (ground (arith, until, live))
          ];
          named = named;
        }
  ]

  still_live :
      (e : Entry)
      → (e.expires ≡ 0) ⊎ (now < e.expires)
      → (e.expires == 0 || ltb now e.expires) ≡ true
  still_live e (inl forever) = ground (arith, forever)
  still_live e (inr until) = ground (arith, until)

  identify_complete : IsSignedIn entries token now name → identify entries token now ≡ some name
  unfolding identify
  identify_complete w =
      let asked : (is_empty token || ltb 1024 (byte_len token)) ≡ false =
        ground (arith, w.nonempty, w.fits) in
      let passes : matches token now w.entry ≡ true =
        and_intro _ _ ((eq_iff w.entry.hash hash).1 w.hashed) (still_live w.entry w.live) in
      let found =
        found_same
        ∙ ap (find (matches token now)) w.split
        ∙ find_complete (matches token now) w.before w.after w.entry w.none_before passes in
      rw asked (ap (Option.map (λ (e : Entry). e.name)) found ∙ ap some w.named)

-- A token signs in under a name exactly when it is not empty, has at most 1024 bytes, and the first
-- entry of the file that has its SHA-256 and has not expired has the name.
pub identify_iff :
    (file : Option Text) (token : Text) (now : ℕ) (name : Text)
    → (identify (read file) token now ≡ some name) ↔ IsSignedIn (read file) token now name
identify_iff file token now name = (
  identify_sound (read file) token now name (read_sound file),
  identify_complete (read file) token now name (read_sound file),
)

is_live_antitone :
    (hash : Text) (now later : ℕ) (e : Entry)
    → now ≤ later
    → is_live hash now e ≡ false
    → is_live hash later e ≡ false
unfolding is_live
is_live_antitone hash now later e le h = ground (arith, le, h)

find_antitone :
    (hash : Text) (now later : ℕ) (es : List Entry)
    → now ≤ later
    → find (is_live hash now) es ≡ none
    → find (is_live hash later) es ≡ none
find_antitone hash now later [] le h = refl
find_antitone hash now later (e ∷ es) le h = elim (Bool-cases (is_live hash now e)) [
  | inl here ↦ cc (here, h)
  | inr gone ↦
      rw (is_live_antitone hash now later e le gone)
        (find_antitone hash now later es le (rw gone at h))
]

map-none : (o : Option Entry) → Option.map (λ (e : Entry). e.name) o ≡ none → o ≡ none
map-none none h = refl
map-none (some e) h = cc h

-- A token that signs nobody in does not begin to as time passes.
pub identify_antitone :
    (entries : List Entry) (token : Text) (now later : ℕ)
    → now ≤ later
    → identify entries token now ≡ none
    → identify entries token later ≡ none
unfolding identify
identify_antitone entries token now later le h =
    elim (Bool-cases (is_empty token || ltb 1024 (byte_len token))) [
      | inl refused ↦ rw refused refl
      | inr asked ↦
          let gone =
            map-none (find (is_live (sha256_hex (as_bytes token)) now) entries) (rw asked at h) in
          rw asked (
            ap (Option.map (λ (e : Entry). e.name))
              (find_antitone (sha256_hex (as_bytes token)) now later entries le gone))
    ]
