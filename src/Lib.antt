-- ===== src/Lib.antt =====
-- tiny_sql is a small SQL server that speaks the MySQL protocol. This library models the code that
-- every request and reply goes through: the byte buffer, the packets, the login, the SQL lexer and
-- the parser, the execution of statements, and the tables and databases behind them.
--
-- * Buffer models include/tiny_sql/common/buffer.h. `Buffer` holds the bytes and the two indices,
--   and a method is a function of the buffer that returns, or throws with the state it leaves.
-- * Packet models src/protocol/packet.cpp: the header, `GenericPacket`, `checkPacketComplete`.
-- * Response models the OK, ERR and EOF packets of src/protocol/response.cpp and
--   `identifyPacketType`, ResultSet its packets of a result set. They write and read a `Buffer` and
--   use the header of Packet.
-- * Handshake models src/protocol/handshake.cpp, the greeting and the client's answer.
-- * Session models src/session/session.cpp, and Authenticator src/auth/authenticator.cpp.
-- * Token models include/tiny_sql/sql/token.h and src/sql/token.cpp, and Lexer models
--   src/sql/lexer.cpp: `nextToken`, `peekToken` and `tokenize` with all they call.
-- * Ast models include/tiny_sql/sql/ast.h and src/sql/ast.cpp.
-- * Parser models src/sql/parser.cpp: Parser has the expressions, Parser/Statements the statements,
--   for any source of tokens, and Parser/Query puts the lexer there.
-- * Storage models src/storage: Storage/Value and Storage/Compare the values, Storage/Table the
--   tables, and Storage/Catalogue the databases and the engine. Maps is the string map that they
--   share.
-- * Evaluator models src/storage/expression_evaluator.cpp, the value of a WHERE clause on a row.
-- * Commands models src/command/command_handler.cpp: Commands/Dispatch takes a packet apart and
--   calls the parser, Commands/Schema, Commands/Insert and Commands/Select execute the statements.
-- * ProtocolHandler models src/protocol/protocol_handler.cpp, which uses all of these: a connection
--   from its greeting over the login to the commands.
-- * TcpConnection models the sending and closing of src/network/tcp_connection.cpp.
-- * Prelude has the helpers: lists and numbers, Boolean tests, results that may be exceptions.
--
-- A connection's state is the record `Server` of Commands: the input buffer, the session, the
-- storage, and what has been sent. A handler is a function of it, composed as the code composes it.
--
-- Numbers are unbounded, and the wrap-around of the program's words is written out where it has
-- one. The loops run on fuel. Those of the lexer have as many rounds as the input has bytes, and a
-- round reads a byte; a loop that would go on when its rounds are used up sets the mark `exhausted` of
-- the lexer, which the class does not have. The parser has three units for each byte and ten more,
-- since at most three calls are made for each token, and its results have a case for the fuel that
-- runs out.
--
-- Parameters stand for what is not in the repository: SHA-1 (a function, of which the theorems use
-- that a digest has twenty bytes), the operations on floating-point numbers (the record `Floats`),
-- the random challenge and the number of the descriptor. Nothing is assumed of the floating-point
-- operations but where a theorem says so.
--
-- Not modelled: the logging, the event loops and servers, reading from sockets, threads, and
-- the capacity of vectors. A command runs to its end before the next one starts.
pub mod Prelude
pub mod Buffer
pub mod Packet
pub mod Response
pub mod Token
pub mod Lexer
pub mod Ast
pub mod Parser
pub mod Maps
pub mod Storage
pub mod Authenticator
pub mod Commands
pub mod Evaluator
pub mod Handshake
pub mod ProtocolHandler
pub mod ResultSet
pub mod Session
pub mod TcpConnection
