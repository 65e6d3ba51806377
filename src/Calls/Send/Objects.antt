-- ===== src/Calls/Send/Objects.antt =====
-- stub/gles2_stub.c: how textures, buffers, shaders and programs are sent.
use webos_bridge_64to.Common.{ℕ, [], ◌∷◌}
use webos_bridge_64to.Calls.Args.{Command, u32, i32}
use webos_bridge_64to.Calls.Opcodes.{
  op_gl_active_texture, op_gl_bind_texture, op_gl_copy_tex_image_2d, op_gl_copy_tex_sub_image_2d,
  op_gl_generate_mipmap, op_gl_pixel_storei, op_gl_bind_renderbuffer, op_gl_renderbuffer_storage,
  op_gl_delete_shader, op_gl_compile_shader, op_gl_release_shader_compiler, op_gl_delete_program,
  op_gl_attach_shader, op_gl_detach_shader, op_gl_link_program, op_gl_use_program,
  op_gl_validate_program,
}

unfoldable pub send_gl_active_texture : ℕ → Command
send_gl_active_texture texture = record {
  opcode = op_gl_active_texture;
  args = (u32, texture) ∷ [];
}

unfoldable pub send_gl_bind_texture : ℕ → ℕ → Command
send_gl_bind_texture target texture = record {
  opcode = op_gl_bind_texture;
  args = (u32, target) ∷ (u32, texture) ∷ [];
}

unfoldable pub send_gl_copy_tex_image_2d : ℕ → ℕ → ℕ → ℕ → ℕ → ℕ → ℕ → ℕ → Command
send_gl_copy_tex_image_2d target level_arg internalformat x y width height border = record {
  opcode = op_gl_copy_tex_image_2d;
  args =
      (u32, target)
      ∷ (i32, level_arg)
      ∷ (u32, internalformat)
      ∷ (i32, x)
      ∷ (i32, y)
      ∷ (i32, width)
      ∷ (i32, height)
      ∷ (i32, border)
      ∷ [];
}

unfoldable pub send_gl_copy_tex_sub_image_2d : ℕ → ℕ → ℕ → ℕ → ℕ → ℕ → ℕ → ℕ → Command
send_gl_copy_tex_sub_image_2d target level_arg xoffset yoffset x y width height = record {
  opcode = op_gl_copy_tex_sub_image_2d;
  args =
      (u32, target)
      ∷ (i32, level_arg)
      ∷ (i32, xoffset)
      ∷ (i32, yoffset)
      ∷ (i32, x)
      ∷ (i32, y)
      ∷ (i32, width)
      ∷ (i32, height)
      ∷ [];
}

unfoldable pub send_gl_generate_mipmap : ℕ → Command
send_gl_generate_mipmap target = record {
  opcode = op_gl_generate_mipmap;
  args = (u32, target) ∷ [];
}

unfoldable pub send_gl_pixel_storei : ℕ → ℕ → Command
send_gl_pixel_storei pname param = record {
  opcode = op_gl_pixel_storei;
  args = (u32, pname) ∷ (i32, param) ∷ [];
}

unfoldable pub send_gl_bind_renderbuffer : ℕ → ℕ → Command
send_gl_bind_renderbuffer target renderbuffer = record {
  opcode = op_gl_bind_renderbuffer;
  args = (u32, target) ∷ (u32, renderbuffer) ∷ [];
}

unfoldable pub send_gl_renderbuffer_storage : ℕ → ℕ → ℕ → ℕ → Command
send_gl_renderbuffer_storage target internalformat width height = record {
  opcode = op_gl_renderbuffer_storage;
  args = (u32, target) ∷ (u32, internalformat) ∷ (i32, width) ∷ (i32, height) ∷ [];
}

unfoldable pub send_gl_delete_shader : ℕ → Command
send_gl_delete_shader shader = record { opcode = op_gl_delete_shader; args = (u32, shader) ∷ [] }

unfoldable pub send_gl_compile_shader : ℕ → Command
send_gl_compile_shader shader = record { opcode = op_gl_compile_shader; args = (u32, shader) ∷ [] }

unfoldable pub send_gl_release_shader_compiler : Command
send_gl_release_shader_compiler = record { opcode = op_gl_release_shader_compiler; args = [] }

unfoldable pub send_gl_delete_program : ℕ → Command
send_gl_delete_program program = record {
  opcode = op_gl_delete_program;
  args = (u32, program) ∷ [];
}

unfoldable pub send_gl_attach_shader : ℕ → ℕ → Command
send_gl_attach_shader program shader = record {
  opcode = op_gl_attach_shader;
  args = (u32, program) ∷ (u32, shader) ∷ [];
}

unfoldable pub send_gl_detach_shader : ℕ → ℕ → Command
send_gl_detach_shader program shader = record {
  opcode = op_gl_detach_shader;
  args = (u32, program) ∷ (u32, shader) ∷ [];
}

unfoldable pub send_gl_link_program : ℕ → Command
send_gl_link_program program = record { opcode = op_gl_link_program; args = (u32, program) ∷ [] }

unfoldable pub send_gl_use_program : ℕ → Command
send_gl_use_program program = record { opcode = op_gl_use_program; args = (u32, program) ∷ [] }

unfoldable pub send_gl_validate_program : ℕ → Command
send_gl_validate_program program = record {
  opcode = op_gl_validate_program;
  args = (u32, program) ∷ [];
}
