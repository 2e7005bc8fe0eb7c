-- ===== src/Assembler/Cursor.antt =====
-- src/assembler.hpp and src/assemble.cpp: the token cursor, `next`, `next_is` and `done`.
use bigassm.Prelude.{
  suc, Bool, false, none, some, [], ◌++◌, Bytes, codes, length, get_elem?, leb, if◌then◌else◌,
}
use bigassm.Types.{TokenType, Token, out_of_range, token_exception}
use bigassm.Types.Print.{is_type, type_to_string}
use bigassm.Assembler.State.{Assembler, Asm, pure, throw, from_option, ◌>>=◌}

-- `const Token& next()`: `tokens->at(index++)`
unfoldable pub next_token : Asm Token
next_token a =
    from_option out_of_range (get_elem? a.tokens a.index) (record a { index = suc a.index })

unfoldable pub argument_mismatch {ℓ} : {A : Type ℓ} → Token → TokenType → Bytes → Asm A
unfolding type_to_string
argument_mismatch tk t info = throw (
    token_exception tk (
      codes "Argument mismatch. Expected "
      ++ (type_to_string t
          ++ (codes ", found " ++ (type_to_string tk.type ++ (codes " instead." ++ info))))))

-- `template <TokenType T> const Token& next()`
unfoldable pub next : TokenType → Asm Token
unfolding next_token is_type
next t = do tk ← next_token; if is_type tk.type t then pure tk else argument_mismatch tk t []

unfoldable pub done : Assembler → Bool
done a = leb (length a.tokens) a.index

unfoldable pub next_is : TokenType → Assembler → Bool
unfolding done is_type
next_is t a =
    if done a
    then false
    else elim (get_elem? a.tokens a.index) [ none ↦ false | some tk ↦ is_type tk.type t ]
