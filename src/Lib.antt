-- ===== src/Lib.antt =====
-- Tails: a Forth-like language with a compiler that checks stack effects, an interpreter of
-- threaded code, and values of 64 bits. The parts, and the files that model them:
--   * TypeSet and StackEffect (src/core/stack_effect.hh): sets of value types with the bit
--     operations of the source, and the effect of a word as a list of entries with two counts.
--   * EffectParser (src/compiler/stack_effect_parser.hh): the parser of effect declarations, over
--     the codes of the characters.
--   * Value and Value/Arithmetic (src/values/value.cc, src/values/value.hh): values by their type,
--     their comparison and arithmetic. What the processor does with doubles, and what stands in memory
--     above the top of a stack, is the parameter `Fpu`.
--     Value/Arithmetic/Coherent and Value/Arithmetic/Order are about the order of values.
--   * NanTagged (src/values/nan_tagged.hh, src/values/value.cc): the 64 bits of a value.
--   * EffectStack and Checker (src/compiler/compiler+stackcheck.hh, src/compiler/compiler.cc): the
--     simulated stack and the stack checker, which runs each instruction's effect on it and
--     remembers the stack at each position. EffectStack/Fits is about the values that a stack of
--     the checker stands for, EffectStack/Apply and Checker/Applied about one instruction,
--     Checker/Joins about flows of control that meet, Checker/Memo and Checker/Followed about what the
--     checker has remembered when it is done, Checker/Inputs about the declared inputs, Checker/Sound
--     about what follows for a run, and Checker/Growth about the recorded growth.
--   * Word and Vm (src/core/core_words.cc, src/core/word.hh, src/core/instruction.hh): the core
--     words, their declared effects, and the interpreter. Vm/Run is the control, Vm/Words the words
--     that are made of others.
--   * Builder (src/compiler/compiler.cc, src/compiler/compiler.hh, the control words of
--     src/compiler/parser.cc): the Compiler object while a word is put together, with its control
--     stack. Builder/Built, Builder/Targets, Builder/Steps and Builder/Branches are about the
--     invariant, Builder/Control about each control word, Builder/Effect about the declared effect,
--     Builder/Finish about the end, which calls the checker and Codegen, and Builder/Runs about a run
--     of the code.
--   * Tokenizer, Token and Parser (src/compiler/parser.cc): the reading of tokens, their kinds, and
--     the parser of source code with its literals and quotations, over Builder and Vocabulary.
--   * Disassembler (src/compiler/disassembler.hh): the words of a code, for inlining,
--     with Disassembler/Inverse on code that was generated.
--   * Codegen (src/compiler/compiler.cc): the layout and the assembly of the instructions.
--     Codegen/Branches is about chains of branches, Codegen/Rewritten and Codegen/Turn about what
--     becomes of a word, Codegen/Places and Codegen/Sizes about code that lies end to end,
--     Codegen/Erased about branches to words that are left out, Codegen/Laid, its two turns and
--     Codegen/Placed about the loop, and Codegen/Correct about the result.
--     Codegen/Grouped and Codegen/Grouping are about the groups of interpreted words under one INTERP
--     word, Codegen/Above about values that lie below those of a word, and Codegen/Runs about a run
--     of the code: Runs/Turns at one word, Runs/Steps at a native one, Runs/Groups at a group, and
--     Runs/Follows and Runs/Sound to the end.
--   * Gc (src/values/gc.cc, src/values/gc.hh, garbageCollect of src/repl.cc): the heap as a store of
--     objects by address with the list that links them. Gc/Mark is about marking, Gc/Chain about
--     the list, Gc/Sweep about the sweep, Gc/Collect about a whole collection, and Gc/Allocate about
--     allocation.
--   * Vocabulary (src/compiler/vocabulary.cc, src/compiler/vocabulary.hh): the lookup of words,
--     and in Vocabulary/Active the vocabularies in use and the present one.
--   * CompiledWord (src/compiler/compiler.cc): the constructors of a compiled word, with the
--     registration of its name, and DEFINE.
--   * Output (src/io.hh, src/values/value.cc, src/more_words.cc): the text of values and stack
--     effects, and the words that print.
--   * Repl (src/repl.cc): the evaluation of a line and the loop of main. Repl/Compiled is about what
--     the compilation of a line gives, and Repl/Laws about its errors.
--   * Result: the exceptions as a result type. Prelude: tests, lists, bits and integers over the
--     native numbers.
-- A stack is a list with its top first. An exception is a result `err`, a failed assertion too. What
-- C++ leaves undefined is the outcome `fault` in the interpreter, and the error `invalid_access` in the
-- collector and where the code generator reads the position of a word that it has erased. RECURSE
-- can come to values that stand in memory above the stack, which are a parameter. The interpreter
-- takes a unit of fuel for each instruction, the checker one for each position that it visits, marking
-- one for each call on the way into an object, the sweep one for each object, the parser one for each
-- token, and the code generator one for each branch of a chain; out of fuel is a result of its own, and
-- the theorems on ABS, MAX and MIN, on runs of code with forward branches, on the collector, on code
-- generation and on array literals say how much is enough. Positions of the compiler's list are
-- indices, and the stacks remembered there are a map of the checker's state.
-- Not modelled: the tracing's use of the disassembler, line editing, and the text of an error in the
-- REPL. DEFINE, which adds to the vocabulary, is a function of CompiledWord and a fault of the
-- interpreter, and the words that print are functions of Output. The room for the stack, which the
-- REPL takes from the effect, is not a limit of the interpreter's lists.
pub mod Prelude
pub mod TypeSet
pub mod Result
pub mod StackEffect
pub mod Value
pub mod EffectStack
pub mod Word
pub mod Builder
pub mod Checker
pub mod Disassembler
pub mod Token
pub mod Parser
pub mod Tokenizer
pub mod Codegen
pub mod NanTagged
pub mod Vm
pub mod EffectParser
pub mod Vocabulary
pub mod Gc
pub mod Output
pub mod Repl
pub mod CompiledWord
