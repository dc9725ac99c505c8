-- ===== src/Builtins/Supported.antt =====
-- `builtinIsSupported` of
-- phase-1-llvm/clang/lib/Basic/Builtins.cpp.
use Prim.Native.Nat.{bit_and}
use spacemit_ime_iree_tcp.Shared.{ℕ, Bool, not, ◌&&◌, ◌||◌, List, [], ◌∷◌, Text, any, ◌==◌, ltb}
use spacemit_ime_iree_tcp.Builtins.Table.{Info}

-- The options of the language that the test reads.
pub record LangOptions : Type 0 where
  pub no_builtin : Bool
  pub no_math_builtin : Bool
  pub coroutines : Bool
  pub gnu_mode : Bool
  pub microsoft_ext : Bool
  pub hlsl : Bool
  pub obj_c : Bool
  pub open_cl : Bool
  pub open_cl_generic_address_space : Bool
  pub open_cl_pipes : Bool
  pub open_cl_compatible_version : ℕ
  pub blocks : Bool
  pub open_mp : Bool
  pub cuda : Bool
  pub c_plus_plus : Bool
  pub c_plus_plus20 : Bool
  pub c23 : Bool
  pub c2y : Bool

-- The language bits and the header ID that clang/Basic/Builtins.h defines.
pub record LanguageIds : Type 0 where
  pub cor_lang : ℕ
  pub gnu_lang : ℕ
  pub ms_lang : ℕ
  pub hlsl_lang : ℕ
  pub objc_lang : ℕ
  pub all_ocl_languages : ℕ
  pub ocl_gas : ℕ
  pub ocl_pipe : ℕ
  pub ocl_dse : ℕ
  pub omp_lang : ℕ
  pub cuda_lang : ℕ
  pub cxx_lang : ℕ
  pub c23_lang : ℕ
  pub c2y_lang : ℕ
  pub math_h : ℕ

-- `strchr(text, c) != nullptr`.
abbrev pub has_char : ℕ → Text → Bool
has_char c = any (λ d. d == c)

abbrev in_langs : ℕ → ℕ → Bool
in_langs langs mask = not (bit_and langs mask == 0)

-- The tests of the function, in its order; each one that holds makes it return false.
abbrev rejections : LanguageIds → Info → LangOptions → List Bool
rejections l i o =
    (o.no_builtin && has_char b'f' i.attributes)
    ∷ (not o.coroutines && in_langs i.langs l.cor_lang)
    ∷ (o.no_math_builtin && i.header == l.math_h)
    ∷ (not o.gnu_mode && in_langs i.langs l.gnu_lang)
    ∷ (not o.microsoft_ext && in_langs i.langs l.ms_lang)
    ∷ (not o.hlsl && in_langs i.langs l.hlsl_lang)
    ∷ (not o.obj_c && i.langs == l.objc_lang)
    ∷ (not o.open_cl && in_langs i.langs l.all_ocl_languages)
    ∷ (not o.open_cl_generic_address_space && in_langs i.langs l.ocl_gas)
    ∷ (not o.open_cl_pipes && in_langs i.langs l.ocl_pipe)
    ∷ ((ltb o.open_cl_compatible_version 200 || not o.blocks) && in_langs i.langs l.ocl_dse)
    ∷ (not o.open_mp && i.langs == l.omp_lang)
    ∷ (not o.cuda && i.langs == l.cuda_lang)
    ∷ (not o.c_plus_plus && i.langs == l.cxx_lang)
    ∷ (not o.c_plus_plus20 && has_char b'G' i.attributes)
    ∷ (not o.c23 && i.langs == l.c23_lang)
    ∷ (not o.c2y && i.langs == l.c2y_lang)
    ∷ []

unfoldable pub builtin_is_supported : LanguageIds → Info → LangOptions → Bool
builtin_is_supported l i o = not (any (λ rejected. rejected) (rejections l i o))
