-- ===== src/Console/Format.antt =====
-- `k_printf` of debug.c on formats that are made of text and directives.
use project_luciano.Base.{ℕ, ◌≡◌, refl, ap, ◌∙◌, ◌≢◌, Option, some, List, [], ◌∷◌, ◌++◌, arith, All}
use project_luciano.Base.Int.{ℤ}
use project_luciano.Libc.{Bytes}
use project_luciano.Console.{
  k_printf_lu, k_printf_d, k_printf_b, k_printf_x, Arg, int_arg, word_arg, text_arg, percent, kind,
  text, emit, join, low_byte, run, k_printf,
}

-- A piece of a format with the argument that it takes.
pub data Piece : Type 0 where
  char : ℕ → Piece
  lu : ℕ → Piece
  d : ℤ → Piece
  b : ℕ → Piece
  x : ℕ → Piece
  s : Bytes → Piece
  c : ℤ → Piece

-- A character that starts no directive.
abbrev pub IsPlain : Piece → Type 0
IsPlain (char k) = kind k ≢ percent
IsPlain _ = Unit

unfoldable pub spelling : Piece → Bytes
spelling (char k) = k ∷ []
spelling (lu n) = b'%' ∷ b'l' ∷ b'u' ∷ []
spelling (d n) = b'%' ∷ b'd' ∷ []
spelling (b n) = b'%' ∷ b'b' ∷ []
spelling (x n) = b'%' ∷ b'x' ∷ []
spelling (s t) = b'%' ∷ b's' ∷ []
spelling (c n) = b'%' ∷ b'c' ∷ []

unfoldable pub argument : Piece → List Arg
argument (char k) = []
argument (lu n) = word_arg n ∷ []
argument (d n) = int_arg n ∷ []
argument (b n) = word_arg n ∷ []
argument (x n) = word_arg n ∷ []
argument (s t) = text_arg t ∷ []
argument (c n) = int_arg n ∷ []

unfoldable pub output : Piece → Option Bytes
output (char k) = some (k ∷ [])
output (lu n) = k_printf_lu n
output (d n) = k_printf_d n
output (b n) = k_printf_b n
output (x n) = k_printf_x n
output (s t) = some t
output (c n) = low_byte n

pub format : List Piece → Bytes
format [] = []
format (p ∷ ps) = spelling p ++ format ps

pub arguments : List Piece → List Arg
arguments [] = []
arguments (p ∷ ps) = argument p ++ arguments ps

unfoldable pub outputs : List Piece → Option Bytes
outputs [] = some []
outputs (p ∷ ps) = join (output p) (outputs ps)

plain_step :
    (k : ℕ) (f : Bytes) (args : List Arg)
    → kind k ≢ percent
    → run text (k ∷ f) args ≡ emit (k ∷ []) (run text f args)
unfolding run
plain_step k f args ne = ground arith

piece_step :
    (p : Piece) (f : Bytes) (args : List Arg)
    → IsPlain p
    → run text (spelling p ++ f) (argument p ++ args) ≡ join (output p) (run text f args)
unfolding run spelling argument output kind
piece_step (char k) f args ne = plain_step k f args ne
piece_step (lu n) f args ne = refl
piece_step (d n) f args ne = refl
piece_step (b n) f args ne = refl
piece_step (x n) f args ne = refl
piece_step (s t) f args ne = refl
piece_step (c n) f args ne = refl

-- A format of text without '%' and of the directives "%lu", "%d", "%b", "%x", "%s" and "%c", with the
-- arguments that they take, prints one after the other what each of its pieces prints.
pub k_printf-format :
    (ps : List Piece) → All IsPlain ps → k_printf (format ps) (arguments ps) ≡ outputs ps
unfolding k_printf format arguments outputs run
k_printf-format [] h = refl
k_printf-format (p ∷ ps) (h, hs) =
    piece_step p (format ps) (arguments ps) h ∙ ap (join (output p)) (k_printf-format ps hs)
