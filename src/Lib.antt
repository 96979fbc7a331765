-- ===== src/Lib.antt =====
-- Verification of the build support of my_socket: the linter my_socket/build_support/cpplint.py.
--
-- The linter reads a C++ file line by line. It parses the NOLINT comments (Suppressions), clears
-- the comments that go on over several lines (MultiLine) and makes copies of the lines without raw
-- strings, comments and string literals (Cleanse). Then each check looks at the lines and hands its
-- findings to Error, which drops what is suppressed, below the verbosity or filtered out, and
-- counts the rest (LintState). The nesting of blocks is restored at preprocessor conditionals
-- (Preprocessor), and the blocks are followed line by line (Nesting). Many checks find the end or the
-- beginning of a bracketed expression (Expression, Reverse), follow the order of the #include lines
-- (Includes, IncludeLine) or measure functions (FunctionLength, FunctionSize); some look at the whole file
-- (FileChecks, HeaderGuard).
--
-- Base has the names shared by all files, Text the methods of Python's str on lists of code points,
-- Regex a backtracking matcher for the patterns of Python's re, with Regex.Sound and
-- Regex.Progress for what a match means. Report is the tuple that checks hand to Error. Each
-- component's file has the functions of the source under their names in snake case; its children
-- have the proofs, and its child Tests runs it on examples.
--
-- Expression: FindEndOfExpressionInLine and CloseExpression. Plain is the reference, a matcher for
-- brackets alone; Refine compares the two on a line, Close on the lines of a file, Balanced and
-- Meaning say what the reference finds, and Bounds where a search may end.
-- Reverse: FindStartOfExpressionInLine and ReverseCloseExpression. Mirror reads a text from its end
-- with the brackets turned round, Refine compares the search with the same reference on it, Operator
-- is on the characters that are left out, Pairs and RoundTrip on both directions, Bounds on
-- where the search may end. The position
-- endpos is given as endpos + 1, the number of code points up to it.
-- Cleanse: IsCppString, CleanseRawStrings, CleanseComments and class CleansedLines; Cleanse.Patterns
-- has the regular expressions, Cleanse.Loops the two loops. Their fuel is one more than the length
-- of the line, since every turn takes a character away (Cleanse.Total, Cleanse.Quotes); Returns is on the errors
-- that _CollapseStrings could raise. Comments is on a `//` in a string and outside, Lines on the copies.
-- MultiLine: RemoveMultiLineComments and its helpers; the fuel of its loop is one more than the
-- number of lines, and every turn goes on to a later line. Lines has lemmas, Clearing the result.
-- Preprocessor: NestingState.UpdatePreprocessor and _PreprocessorInfo; Conditional is on whole
-- conditionals.
-- Nesting: _BlockInfo and its subclasses (Blocks, Ends) and class NestingState (State, Update). The
-- loops of Update are in Heads and in Braces, InTemplateArgumentList in Template. The fuel of the
-- loops on a line is one more than its length, that of InTemplateArgumentList the number of
-- characters and lines that are left (Update.Total, Template.Total). Braces.Split, Braces.Run and
-- Braces.Flags compare the loop over the braces with one pass over the characters, Braces.Nested and
-- Update.Region are on balanced text. previous_stack_top is a copy of a block, whose class is all
-- that is read of it.
-- Includes: class _IncludeState. Order is on the order of sections, Found on FindHeader.
-- Suppressions: ParseNolintSuppressions, ProcessGlobalSuppresions, IsErrorSuppressedByNolint. Comment
-- describes the text of a NOLINT comment and the groups that the pattern finds in it (Comment.Category
-- is on the parentheses), Covers what it suppresses and reports, Effect what parsing a line changes,
-- Global the marks of a whole file.
-- LintState: class _CppLintState, _ShouldPrintError and Error.
-- Extensions: the options --headers and --extensions. A set is a list, of which only the members
-- count; Sets says which extensions are in which set.
-- FileNames: class FileInfo, PathSplitToList and GetHeaderGuardCPPVariable; os.path and the file
-- system are the record OsPath. The fuel of a loop is one more than the length of the path, which
-- every turn shortens (Search); Variable says what the variable looks like, Sample is a small os.path.
-- HeaderGuard: CheckForHeaderGuard; Matching, Scan and Proper are on files with a proper guard.
-- IncludeLine: _DropCommonSuffixes and _ClassifyInclude (Classify), CheckIncludeLine and
-- FilesBelongToSameModule; Headers has _CPP_HEADERS, Once the list of headers.
-- LineChecks: CheckPosixThreading, CheckVlogArguments, CheckInvalidIncrement, CheckMakePairUsesDeduction
-- and CheckRedundantOverrideOrFinal; Features has FlagCxx11Features and CheckPrintf, Virtual has CheckRedundantVirtual,
-- Inside is on the errors that it could raise, Constructs has CheckForNonStandardConstructs up to its
-- tests on classes.
-- Process: ProcessFileData and ProcessLine, CheckForCopyright, the beginning of CheckLanguage; Namespaces
-- has the helpers of CheckForNamespaceIndentation. The checks that are not modelled are a record
-- of functions to the errors they report (State); that the one for redundant semicolons, in front of
-- its error, parses the NOLINT comments of the lines at the end of the block, is left out. Steps is on runs of Error, Returns and Whole on the end
-- of a line and of a file, Safe and Guard are their lemmas, Silent is on lines with a NOLINT comment.
-- Reporting: the function Error over the state that all checks share.
-- FunctionLength: CheckForFunctionLengths, with whole functions in Whole; Total is on the
-- errors that it could raise.
-- FileChecks: CheckForBadCharacters, CheckForNewlineAtEOF, CheckForMultilineCommentsAndStrings and
-- GetPreviousNonBlankLine, which takes lines behind the end of the file for blank (the source raises an
-- IndexError there).
-- FunctionSize: class _FunctionState; the fuel of the logarithm is the number of lines, which is
-- more than the number of doublings.
--
-- White space and letters are those of ASCII. The sets of _error_suppressions are lists of pairs.
-- Not modelled: the other checks on single lines (CheckStyle, most of CheckLanguage,
-- CheckForNonConstReference, the rest of CheckForNonStandardConstructs), CheckForIncludeWhatYouUse,
-- CheckHeaderFileIncluded, the command line,
-- all printing and file access, the runners of clang-format and clang-tidy, and the C++ sources of
-- the server.
mod Base
pub mod Text
pub mod Regex
pub mod Expression
pub mod Extensions
pub mod Reverse
pub mod HeaderGuard
pub mod IncludeLine
pub mod Includes
pub mod Report
pub mod Reporting
pub mod Suppressions
pub mod LintState
pub mod FileChecks
pub mod FileNames
pub mod FunctionSize
pub mod FunctionLength
pub mod Cleanse
pub mod MultiLine
pub mod Preprocessor
pub mod Nesting
pub mod LineChecks
pub mod Process
