-- ===== src/Lib.antt =====
-- A model of the online judger: a program that compiles submissions, runs them on test data under
-- limits of time and memory, compares their output with the expected one, and records the verdicts.
--
-- The parts of the program and the modules that model them:
--   Os           what the program takes from Windows: files, directories, child processes. The calls
--                are fields of the record `Os` and the state that they change is its `World`; the
--                definitions take the record as a parameter. Its fields are arbitrary functions.
--   Text         LZData/LZData.cpp: ltrimString, rtrimString, trimString; and the searches of strings
--   Number       `atoi` and printing with "%d", which the tagged trees use
--   LzData       LZData/LZData.h and LZData/LZData.cpp: the tree of tagged values. A node is a tag, a
--                value and its children. `write` returns a pointer into the tree, which is the list of
--                the indices of the children on the way.
--   Xml          LZData/xml.h, xml.cpp, xmlParser.h and xmlParser.cpp: a tree as tags; Xml.Grammar says
--                which texts stand for which children
--   Lzd          LZData/lzd.h, lzd.cpp, lzdParser.h and lzdParser.cpp: a tree as lines and blocks
--   LzdFile      LZData/LZData.cpp: a tree in a file, in either format
--   Config       Judger/Config.h and Judger/Config.cpp: the settings, read from such a tree or its file
--   FileTool     acm/FileTool.cpp: names of files, makeDir, findFiles, readFileBuffer
--   Task         Judger/JudgeTask.h and Judger/JudgeTask.cpp: `TaskBase`, one submission
--   Utilities    Commen/Utilities.h and acm/Utilities.cpp: `trimRStringA` and the class `StringTool`
--   Net          acm/ZNet.cpp: how ZClientBase sends and receives messages, over the record `Socket`,
--                and the list of clients of ZServer
--   Matcher      Judger/Excuter.cpp, class Matcher: the comparison of two texts
--   Watcher      Commen/Watcher.h and acm/Watcher.cpp: the limits of a running process
--   Process      acm/ZProcess.cpp: the loops of ZProcessDebug::start and ZProcessJob::start
--   Handles      acm/ZProcess.cpp and acm/ZJobObject.cpp: the creation, the start and the destructor of
--                the three kinds of child process, and the handles that they open and close, over the
--                record `Kernel` of the calls of Windows. The judge sees such a process as the calls
--                `create_process`, `wait_exit`, `debug_run` and `job_run` of `Os`
--   Excuter      Judger/Excuter.cpp: CppCompiler, ExeRunner, ExeDebugRunner and Matcher as steps on a
--                task; Excuter.Interface says what the judge relies on of a step
--   Judge        Judger/JudgeCore.h and Judger/JudgeCore.cpp: one judgement, over any three steps
--   TaskMgr      Commen/TaskMgr.h over Commen/ZLock.h: the queue that threads share
--   Cell         Judger/JudgeCell.h and Judger/JudgeCell.cpp: the threads that judge, one by one and
--                in any order
--   Database     Judger/DBManager.h and Judger/DBManager.cpp: the threads that read submissions and write
--                verdicts, over the record `Services` of what they call: the MySQL client, the stream
--                that a source file is written to, the printing of a float, and the callback
--   RefPtr       Commen/RefPtr.h: the counts of smart pointers, for one thread at a time and for objects
--                that have no smart pointers among their members
--   Pipeline     Judger/main.cpp: the callbacks that join the threads of the manager and of the cell
--   Main         Judger/main.cpp: the entry point, as the calls that it makes in order
--   Common       tests, lists, characters and integers that the parts share
--   Tests        concrete inputs
--
-- A cell makes a core for each thread; a thread takes a task from the queue and hands it to its core;
-- the core composes compiler, runner and matcher and reports to a callback, which is any function.
-- A task and the world are passed from step to step and returned. A member function of the source has
-- its name here in lower case, so `doJudge` is `do_judge` and `m_curTestDataIndex` is the field
-- `cur_test_data_index`. The outcome `none` stands for a failed assertion, or for a wait without end,
-- as each definition says. A text that does not fit the
-- buffer of `sprintf_s` ends the program, which is `none` or the halt `too_long`.
--
-- Text is a list of character codes. The integers of a task and of the settings are unbounded; the
-- 64 bit limits of the run step, the 32 bit numbers that it reports, and the ids of clients wrap as in
-- the source.
--
-- Fuel: `read` and `write` take one more than the length of the path, which has fewer names than
-- that, and `make_dir` one more than the length of the directory's name, as the name of a parent is
-- shorter; the reading of the compiler's messages takes one more than their length, as a chunk is not
-- empty. `parseReal` takes one more than the length of the stream, as a tag that is found leaves a
-- shorter one; the loop of `cParser::parse` takes the length of its text, of which a round takes a
-- character off, so that without fuel the text is empty. `safeRemoveFile` has ten attempts in the source.
--
-- In TaskMgr a step is one access of one thread to the list, the mark of the lock or the semaphore, and
-- any thread may take the next; the semaphore stops at its maximum of 32767, where a release is lost.
--
-- Not modelled: the class ZProcess, the log, the opening and closing of network connections, the
-- floating point accessors of a tree and of a `StringTool`, and the classes of the MySQL client that
-- only pass calls on. The float of the pass rate is kept as the two numbers of its quotient.
-- `compile` is the compiler where its command line fits its buffer; `judge_program` says where the
-- program ends instead.
pub mod Common
pub mod Matcher
pub mod Text
pub mod Number
pub mod LzData
pub mod Utilities
pub mod Net
pub mod Xml
pub mod Lzd
pub mod Os
pub mod LzdFile
pub mod Config
pub mod FileTool
pub mod Task
pub mod Watcher
pub mod Process
pub mod Handles
pub mod Excuter
pub mod TaskMgr
pub mod Judge
pub mod Cell
pub mod Database
pub mod Main
pub mod Pipeline
pub mod RefPtr
pub mod Tests
